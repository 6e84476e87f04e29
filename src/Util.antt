-- ===== src/Util.antt =====
-- src/util.c: text encodings of bytes.
pub mod Hex
pub mod Ascii64
