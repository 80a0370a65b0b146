-- ===== src/Postgres.antt =====
-- adapters/postgres: the operations on one configured source.
pub mod Errors
pub mod Session
pub mod Count
pub mod Delete
pub mod Reads
pub mod Sql
