-- ===== src/Tree.antt =====
-- The page tree: backend/internal/core/tree.
pub mod Types
pub mod Version
pub mod Order
pub mod Index
pub mod Store
pub mod Create
pub mod Delete
pub mod Sort
pub mod Move
mod Examples
pub mod Update
pub mod Slug
pub mod Lookup
pub mod Ensure
