-- ===== src/Cmd.antt =====
-- cmd/claude-bridge: the subcommands of the program.
pub mod Os
pub mod Spawn
pub mod Serve
pub mod Peers
pub mod Install
pub mod Shim
pub mod Main
pub mod Status
pub mod Idle
