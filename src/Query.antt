-- ===== src/Query.antt =====
-- internal/query and internal/protocol: what a command does.
pub mod Command
pub mod Verb
pub mod Effects
pub mod Reply
pub mod Executor
pub mod Dispatch
pub mod Execute
pub mod Stores
pub mod Registered
pub mod Admitted
pub mod Crash
