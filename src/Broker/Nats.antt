-- ===== src/Broker/Nats.antt =====
-- broker/nats.go: the broker that keeps history and sessions in NATS JetStream, with a copy of the
-- history in a memory broker.
pub mod Lru
pub mod Sync
pub mod JetStream
pub mod Streams
pub mod Publish
pub mod Sessions
pub mod Buckets
mod Tests
