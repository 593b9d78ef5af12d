-- ===== src/GoLib.antt =====
-- The parts of Go's standard library that the program computes with.
pub mod Search
pub mod Assoc
pub mod Time
pub mod Text
pub mod Calendar
pub mod Hex
pub mod Base64
pub mod FilePath
