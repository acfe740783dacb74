-- ===== src/Storage.antt =====
-- internal/storage/sqlite: the tables of the database and the statements on them.
pub mod Grants
pub mod Fleet
pub mod Audit
pub mod Migrations
pub mod Settings
pub mod CertAuth
pub mod Bucket
