-- ===== src/Messages.antt =====
-- The messages that peers send each other.
pub mod Piece
pub mod Ack
pub mod Length
