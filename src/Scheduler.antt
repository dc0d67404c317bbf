-- ===== src/Scheduler.antt =====
-- modules/rs/rustfbp/src/scheduler.rs: the interior scheduler, its messages and its state, and the
-- system that it makes with its thread pool and its channel.
pub mod Messages
pub mod State
pub mod Exterior
pub mod Dispatch
pub mod System
pub mod Invariant
mod Runs
pub mod Keeps
pub mod Safety
pub mod Progress
pub mod Losses
pub mod Held
pub mod Wakeups
pub mod Whole
mod Tests
