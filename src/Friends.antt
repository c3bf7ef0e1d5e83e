-- ===== src/Friends.antt =====
-- social.go and friend.go: the address book, the friends protocol and the sharing of libraries.
pub mod Text
pub mod Social
pub mod Service
pub mod Inbound
pub mod Actions
pub mod Bounds
pub mod Book
pub mod Machine
pub mod Consent
pub mod Kept
pub mod Disk
pub mod Saved
pub mod Lan
pub mod Routes
pub mod Pushes
pub mod Sharing
pub mod Shown
pub mod Ended
pub mod Handshake
