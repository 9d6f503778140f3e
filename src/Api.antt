-- ===== src/Api.antt =====
-- The routes of src/api and who may take them.
pub mod Rbac
pub mod Routes
