-- ===== src/Tests.antt =====
-- Examples: the theorems at concrete inputs.
mod Data
mod Pairing
mod Relay
mod Relaying
mod Limits
mod Text
mod Server
