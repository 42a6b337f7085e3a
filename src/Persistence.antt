-- ===== src/Persistence.antt =====
-- internal/persistence: the frames of the write-ahead log.
pub mod Endian
pub mod Wal
pub mod Recovery
