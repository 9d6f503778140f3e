-- ===== src/Crypto.antt =====
-- The encodings of src/crypto.
pub mod Base64url
