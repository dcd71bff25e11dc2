-- ===== src/Std.antt =====
-- The parts of Rust's standard library that the program computes with: `str` and `[u8]` methods,
-- UTF-8 validation, and `std::path::Path` as it is on the WASI targets (Unix rules).
pub mod Str
pub mod Utf8
pub mod FilePath
pub mod Decimal
pub mod Codes
