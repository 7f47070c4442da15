-- ===== src/Geoip.antt =====
-- internal/geoip: the address lookup, and the download of its database.
pub mod Resolver
pub mod Updater
pub mod Outcome
