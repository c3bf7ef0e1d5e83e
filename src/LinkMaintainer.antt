-- ===== src/LinkMaintainer.antt =====
-- overlaylink.go: the link maintainer, one heartbeat and repair machine for each accepted friend.
pub mod Link
pub mod Evaluate
pub mod Trust
pub mod Beats
pub mod Repair
pub mod Heartbeat
