-- ===== src/Security.antt =====
-- internal/security: data.go, password.go and session.go.
pub mod Data
pub mod Session
pub mod Password
