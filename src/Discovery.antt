-- ===== src/Discovery.antt =====
-- Coverage of earlier runs and the plans of a discovery: apps/discovery/models.py,
-- apps/discovery/coverage.py and apps/discovery/planning.py.
pub mod Models
pub mod Coverage
pub mod Reuse
pub mod Planning
pub mod Plans
mod Tests
