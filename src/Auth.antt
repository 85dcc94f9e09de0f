-- ===== src/Auth.antt =====
-- Authentication and authorization of requests (internal/auth).
pub mod Token
pub mod Guard
pub mod Tests
