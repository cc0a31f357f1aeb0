-- ===== src/Catalog.antt =====
-- The management database (internal/catalog/catalog.go), by its tables.
pub mod Db
pub mod Body
pub mod Sources
pub mod History
pub mod Runs
pub mod Tokens
pub mod Settings
mod Tests
