-- ===== src/Auth/Users.antt =====
-- Users: backend/internal/core/auth/user_store.go and user_service.go.
pub mod Store
pub mod Transactions
pub mod Edits
pub mod Creation
pub mod Requests
pub mod Table
pub mod Valid
pub mod Rules
pub mod Kept
pub mod Written
pub mod Checks
pub mod Invariant
pub mod Limit
pub mod Slots
pub mod Bounded
mod Tests
