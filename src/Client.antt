-- ===== src/Client.antt =====
-- `IbClient` (client.go): its state, its life, the handshake and the worker goroutines.
pub mod State
pub mod Lifecycle
pub mod Teardown
pub mod Handshake
pub mod Sending
pub mod Workers
