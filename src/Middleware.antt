-- ===== src/Middleware.antt =====
-- internal/middleware: one module for each gate in front of the handlers.
pub mod Window
pub mod RateLimit
pub mod RedisRateLimit
pub mod Auth
pub mod Signature
pub mod BodyLimit
pub mod IpRateLimit
