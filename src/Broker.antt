-- ===== src/Broker.antt =====
-- internal/broker: the daemon's runtime state and the commands of its run loop.
pub mod Clock
pub mod Config
pub mod Session
pub mod Message
pub mod Bucket
pub mod Livelock
pub mod Pusher
pub mod State
pub mod Soundness
pub mod Liveness
pub mod Managed
pub mod Sessions
pub mod Messages
pub mod Subscriptions
pub mod Reaping
pub mod RunLoop
pub mod Commands
