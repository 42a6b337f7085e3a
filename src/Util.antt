-- ===== src/Util.antt =====
-- internal/util: hashing of keys; and the decimal numbers of the standard library.
pub mod Hash
pub mod Slot
pub mod Decimal
