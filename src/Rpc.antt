-- ===== src/Rpc.antt =====
-- internal/daemonrpc: the protocol between the daemon and its clients.
pub mod Frame
pub mod Request
pub mod Server
pub mod Client
