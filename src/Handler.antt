-- ===== src/Handler.antt =====
-- internal/handler: one module for each handler.
pub mod Command
pub mod Types
pub mod Kakao
pub mod Openclaw
pub mod Events
pub mod Sessions
pub mod Dashboard
pub mod Format
