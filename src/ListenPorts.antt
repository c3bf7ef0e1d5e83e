-- ===== src/ListenPorts.antt =====
-- listenports.go: the ports that the node listens on.
pub mod Ports
pub mod Stable
pub mod Listen
pub mod Paired
