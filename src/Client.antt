-- ===== src/Client.antt =====
-- src/client: what the SDK keeps of its connection.
pub mod Subscriptions
pub mod Rpc
pub mod OfflineQueue
pub mod Calls
pub mod Examples
