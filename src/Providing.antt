-- ===== src/Providing.antt =====
-- provide.go and seedannounce.go: the keys that the node announces on the DHT.
pub mod Keys
pub mod State
pub mod Flush
pub mod Confirm
pub mod Leftovers
pub mod Marks
pub mod Safe
pub mod Remember
pub mod Crash
pub mod Settled
pub mod Listed
