-- ===== src/Auth/Sessions.antt =====
-- Sessions: backend/internal/core/auth/session_store.go and session_manager.go.
pub mod Store
pub mod Manager
