-- ===== src/Xfer.antt =====
-- The transfer of bundles in pieces.
pub mod Segments
pub mod Bits
pub mod Bitmap
pub mod Missing
pub mod Send
