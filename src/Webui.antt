-- ===== src/Webui.antt =====
-- internal/webui: the web UI.
pub mod Session
pub mod Pages
pub mod Forms
pub mod Manage
pub mod Tests
