-- ===== src/Repo.antt =====
-- internal/repo: repos as bare git repos on disk.
pub mod Browse
