-- ===== src/Platform.antt =====
-- The platform layer, src/platform.
pub mod Buf
pub mod ThreadPool
pub mod RateLimit
pub mod Config
