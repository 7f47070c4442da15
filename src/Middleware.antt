-- ===== src/Middleware.antt =====
-- internal/middleware: what stands between the listener and the handlers.
pub mod Origin
pub mod RateLimit
pub mod Guards
pub mod Logging
