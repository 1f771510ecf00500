-- ===== src/Rpc.antt =====
-- The RPC controller, which asks an application over the network.
pub mod Retry
pub mod Barrier
pub mod Controller
pub mod Shutdown
