-- ===== src/Server.antt =====
-- cmd/server/main.go: the routes with the middlewares in front of them, and the start and the end of
-- the server.
pub mod Routes
pub mod Serve
pub mod Startup
pub mod Invariants
pub mod Reachable
pub mod Relay
