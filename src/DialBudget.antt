-- ===== src/DialBudget.antt =====
-- netgate.go: the budget of outbound dials, and the addresses that are not dialed.
pub mod Bucket
pub mod Gate
pub mod Rate
pub mod Waits
pub mod Private
