-- ===== src/Reflector.antt =====
-- hostrelay.go: the reflector between the game's broadcasts and those of the real LAN.
pub mod Hosts
pub mod Relay
pub mod Sockets
pub mod Loops
