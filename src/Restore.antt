-- ===== src/Restore.antt =====
-- Restoring a backup under a running server: backend/internal/restore, with the middleware
-- backend/internal/http/middleware/maintenance/writegate.go.
pub mod WriteGate
pub mod Middleware
pub mod Job
pub mod Swap
pub mod Manager
