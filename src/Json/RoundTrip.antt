-- ===== src/Json/RoundTrip.antt =====
-- Through the writer of src/json/json_write.c and back through the parser of json_parse.c.
mod Collected
mod Starts
mod Lengths
mod Rounds
pub mod Values
pub mod Documents
pub mod Samples
mod Tests
