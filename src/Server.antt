-- ===== src/Server.antt =====
-- The server command (cmd/gitmote/main.go).
pub mod Lease
