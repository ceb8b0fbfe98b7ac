-- ===== src/Postings.antt =====
-- Job postings: `persist_job_postings` of apps/crawler/services.py, apps/sources/jobs/ and
-- apps/crawler/reviews.py.
pub mod Parse
pub mod Persist
pub mod Matching
pub mod Collect
pub mod Fixture
pub mod Reviews
mod Tests
