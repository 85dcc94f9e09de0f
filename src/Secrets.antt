-- ===== src/Secrets.antt =====
-- internal/secrets: the secrets of CI, encrypted at rest.
pub mod Keyring
pub mod Service
pub mod Tests
