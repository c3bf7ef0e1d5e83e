-- ===== src/Tests.antt =====
-- Runs of the model at concrete inputs, a module for each part.
mod NetQueue
mod Quarantine
mod LinkMaintainer
mod Packet4
mod Overlay
mod Resume
mod WantPool
mod FailureLog
mod GatewayRanges
mod Friends
mod Providing
mod Reflector
mod DialBudget
mod ListenPorts
mod Resolver
