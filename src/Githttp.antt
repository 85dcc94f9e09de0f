-- ===== src/Githttp.antt =====
-- The git transport over HTTP (internal/githttp).
pub mod Writer
pub mod Backend
pub mod Hook
pub mod Tests
