-- ===== src/Std.antt =====
-- The parts of Rust's standard library whose behaviour the program's results depend on.
pub mod Utf8
pub mod Encode
pub mod Utf16
pub mod Ip
pub mod Map
pub mod Path
