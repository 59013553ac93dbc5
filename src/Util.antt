-- ===== src/Util.antt =====
-- internal/util: token encryption and the validation helpers. The hashes of internal/util/crypto.go
-- are in Runtime, its random tokens in World.
pub mod Base64
pub mod Encryption
pub mod Validation
