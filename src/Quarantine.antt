-- ===== src/Quarantine.antt =====
-- quarantine.go: the wrapper of the bitswap network that takes a peer out of the download rotation.
pub mod Ledger
pub mod Scan
pub mod Message
pub mod Traffic
pub mod Cooldown
pub mod Evidence
pub mod Delivery
pub mod Strike
