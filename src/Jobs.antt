-- ===== src/Jobs.antt =====
-- The persisted job queue: apps/jobs/models.py, apps/jobs/services.py and the worker loop of
-- apps/jobs/management/commands/run_worker.py.
pub mod Models
pub mod Services
pub mod Worker
pub mod Order
pub mod Invariant
pub mod Keeps
pub mod Lease
pub mod Traces
pub mod Recovery
pub mod Enqueue
mod Tests
