-- ===== src/Cache.antt =====
-- internal/cache: the LRU cache.
pub mod Lru
