-- ===== src/Ci.antt =====
-- internal/ci: the CI of the forge.
pub mod LiveLogs
pub mod Report
pub mod Triggers
pub mod EnvSecrets
pub mod Dispatcher
pub mod Tests
