-- ===== src/Cnpj/Discover.antt =====
-- apps/sources/cnpj/jobs.py: the job that reads the files of the Receita for a query.
pub mod Requests
pub mod Establishments
pub mod Complements
pub mod Execute
mod Tests
