-- ===== src/Persistence/Wal.antt =====
-- internal/persistence/wal.go: records, and the frames that hold them.
pub mod Crc
pub mod Encode
pub mod Decode
pub mod RoundTrip
pub mod Scan
pub mod Frame
pub mod Recover
pub mod Reopen
