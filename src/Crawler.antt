-- ===== src/Crawler.antt =====
-- The crawler of company websites, apps/crawler/: which addresses it may connect to, and the
-- bounds of a fetch.
pub mod Security
pub mod Client
pub mod Pages
pub mod Links
pub mod Tests
