-- ===== src/Auth.antt =====
-- Sessions and the checks of src/auth.
pub mod Session
pub mod Validate
pub mod Claims
pub mod Jwt
pub mod Password
