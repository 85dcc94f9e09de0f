-- ===== src/Meta.antt =====
-- The metadata layer (internal/meta): the mutable state of the forge, in a SQL database.
pub mod Schema
pub mod Sql
pub mod Refs
pub mod Acls
pub mod Repos
pub mod Users
pub mod Ci
pub mod Secrets
pub mod Tests
