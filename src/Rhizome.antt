-- ===== src/Rhizome.antt =====
-- The peers, and the bundles that are queued for them.
pub mod TxQueue
pub mod Rank
