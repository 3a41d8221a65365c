-- ===== src/Http.antt =====
-- The HTTP middleware: backend/internal/http/middleware.
pub mod RateLimiter
pub mod ApiKey
pub mod RemoteUser
pub mod Guards
