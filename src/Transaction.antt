-- ===== src/Transaction.antt =====
-- internal/transaction: versions, watched keys, queued commands, ordered locks.
pub mod Mvcc
pub mod Watch
pub mod Multi
pub mod Locks
pub mod TwoPhase
