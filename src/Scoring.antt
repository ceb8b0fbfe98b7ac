-- ===== src/Scoring.antt =====
-- The deterministic scoring engine and its rule sets: apps/scoring/engine.py,
-- apps/scoring/services.py and apps/scoring/models.py.
pub mod Json
pub mod Decimal
pub mod Condition
pub mod Models
pub mod Validate
pub mod Decay
pub mod Group
pub mod Engine
pub mod Score
pub mod RuleSets
mod Tests
