-- ===== src/Storage/Sqlite.antt =====
-- internal/storage/sqlite.go: each method is its SQL statement over the tables, with the
-- constraints of migrations/sqlite/001_initial.sql.
pub mod Users
pub mod Projects
pub mod Tokens
pub mod Devices
pub mod Events
pub mod Whole
pub mod Reuse
