-- ===== src/Json.antt =====
-- JSON, src/json.
pub mod Value
pub mod Scanner
pub mod Strings
pub mod Parser
pub mod Writer
pub mod RoundTrip
