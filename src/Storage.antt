-- ===== src/Storage.antt =====
-- internal/storage: the interface that the handlers use, and the database behind it.
pub mod Store
pub mod Origins
pub mod Schema
pub mod Sqlite
pub mod Postgres
pub mod Sound
pub mod Keyed
pub mod Analytics
pub mod Open
