-- ===== src/Companies.antt =====
-- apps/companies: the corrections of a company by the staff.
pub mod Corrections
mod Tests
