-- ===== src/Query/Crash.antt =====
-- Crash consistency of the executor: what the log of a durable command makes of a store, and what the
-- command itself does.
pub mod View
pub mod Replayed
pub mod Written
pub mod Updated
pub mod Removed
pub mod Renamed
pub mod Paired
pub mod Replies
pub mod Commands
pub mod Refined
pub mod Suppressed
pub mod Logged
pub mod Executed
pub mod History
pub mod Lost
pub mod Between
