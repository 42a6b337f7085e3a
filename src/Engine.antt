-- ===== src/Engine.antt =====
-- internal/engine: the sharded store, and the stores of the data types over it.
pub mod Entry
pub mod Kv
pub mod Typed
pub mod Lists
pub mod Hashes
pub mod Strings
pub mod Sets
