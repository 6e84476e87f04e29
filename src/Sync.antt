-- ===== src/Sync.antt =====
-- Synchronisation of bundles between peers.
pub mod Lookup
pub mod Tree
pub mod State
pub mod Wire
pub mod Receive
