-- ===== src/Broker.antt =====
-- The broker package: stream tracking, history, session cache and presence.
pub mod Calls
pub mod Tracker
pub mod Legacy
pub mod Memstream
pub mod Presence
pub mod Memory
pub mod Nats
mod Tests
