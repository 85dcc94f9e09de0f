-- ===== src/Render.antt =====
-- internal/render: what the pages show of untrusted content.
pub mod Ansi
