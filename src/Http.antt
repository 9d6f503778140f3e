-- ===== src/Http.antt =====
-- HTTP, src/http.
pub mod Request
pub mod Router
pub mod Cors
pub mod Response
pub mod Conn
