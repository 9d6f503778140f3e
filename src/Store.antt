-- ===== src/Store.antt =====
-- The tables behind the service, src/store.
pub mod SessionStore
pub mod TokenStore
