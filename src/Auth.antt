-- ===== src/Auth.antt =====
-- Users and sessions: backend/internal/core/auth.
pub mod LoginAttempts
pub mod Sessions
pub mod Users
pub mod Totp
pub mod Service
