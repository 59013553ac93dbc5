-- ===== src/Server/Invariants.antt =====
-- Predicates on the database that every statement keeps are kept by the whole server.
pub mod Pairing
pub mod Chat
pub mod Endpoints
pub mod Serving
pub mod Pages
