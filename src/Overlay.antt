-- ===== src/Overlay.antt =====
-- overlay.go: the packet datapath between the local link and the peers of the LAN.
pub mod Frame
pub mod Service
pub mod Send
pub mod Outbound
pub mod Inbound
pub mod Queue
pub mod Gate
pub mod Routing
pub mod Reach
pub mod Stream
