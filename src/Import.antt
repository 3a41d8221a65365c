-- ===== src/Import.antt =====
-- The import of a folder of Markdown files: backend/internal/importer.
pub mod PlanStore
pub mod Executor
