-- ===== src/Daemon.antt =====
-- The daemon as a whole: the goroutines of its connections over one broker, and its idle timer.
pub mod Goroutine
pub mod System
pub mod History
pub mod Solo
pub mod Counting
pub mod Exiting
pub mod Dropping
pub mod Keeping
pub mod Ending
pub mod Owning
pub mod Leaving
