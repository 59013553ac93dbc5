-- ===== src/Service.antt =====
-- internal/service: one module for each service.
pub mod Conversation
pub mod Message
pub mod Callback
pub mod Session
pub mod RateLimiter
