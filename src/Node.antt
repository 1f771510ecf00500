-- ===== src/Node.antt =====
-- The node package: the sessions' subscriptions, and the commands of a client.
pub mod Subscriptions
pub mod Steps
pub mod Replies
pub mod Commands
pub mod Cache
pub mod Lifecycle
pub mod Link
pub mod Broadcasts
pub mod Obeys
pub mod DisconnectQueue
mod Tests
