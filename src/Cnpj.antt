-- ===== src/Cnpj.antt =====
-- The Receita CNPJ source: apps/sources/models.py, apps/sources/cnpj/ and apps/discovery/planning.py.
pub mod Models
pub mod Storage
pub mod Download
pub mod Health
pub mod Readers
pub mod Scan
pub mod Manifest
pub mod Records
pub mod Catalog
pub mod Ingestion
pub mod Discover
mod Tests
