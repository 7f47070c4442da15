-- ===== src/Examples.antt =====
-- Runs of the program at concrete inputs, and the theorems applied to them.
mod Origins
mod Storage
mod RateLimit
mod Tracking
mod Accounts
mod Guards
mod Analytics
mod Config
mod Console
mod Server
mod Postgres
mod Geoip
mod Startup
mod Pages
