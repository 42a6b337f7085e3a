-- ===== src/Cache/Lru.antt =====
-- `LRUCache` of internal/cache/entry.go. The map and the linked list hold the same entries: one list
-- stands for both, the most recent first.
pub mod Sound
use dbx_database_extreme.Base.{
  ℕ, zero, suc, Bool, true, false, ◌&&◌, not, Bytes, Option, none, some, List, [], ◌∷◌, length, eqb,
  ℤ, pos, ◌+ℤ◌, wrap64, ltb_ℤ, leb_ℤ, eqb_ℤ, if◌then◌else◌,
}

-- `V` stands for `interface{}`. The fields `Freq` and `Size` are never read.
pub record CacheEntry (V : Type 0) : Type 0 where
  pub key : Bytes
  pub value : V
  pub expires_at : ℤ

pub record LruCache (V : Type 0) : Type 0 where
  pub capacity : ℤ
  pub entries : List (CacheEntry V)

module _ {V : Type 0} where
  unfoldable pub cache_expired : CacheEntry V → ℤ → Bool
  cache_expired e now = not (eqb_ℤ e.expires_at (pos 0)) && ltb_ℤ e.expires_at now

  -- c.items[key]
  unfoldable pub item : Bytes → List (CacheEntry V) → Option (CacheEntry V)
  item key [] = none
  item key (e ∷ es) = if eqb e.key key then some e else item key es

  unfoldable pub unlink : Bytes → List (CacheEntry V) → List (CacheEntry V)
  unlink key [] = []
  unlink key (e ∷ es) = let rest = unlink key es in if eqb e.key key then rest else e ∷ rest

  -- The entry at the back goes.
  unfoldable pub evict : List (CacheEntry V) → List (CacheEntry V)
  evict [] = []
  evict (e ∷ []) = []
  evict (e ∷ f ∷ es) = e ∷ evict (f ∷ es)

  unfoldable pub cache_get_found :
      LruCache V → Bytes → Option (CacheEntry V) → ℤ → Option (CacheEntry V) × LruCache V
  unfolding cache_expired
  cache_get_found c key none now = (none, c)
  cache_get_found c key (some e) now =
      if cache_expired e now
      then (none, record c { entries = unlink key c.entries })
      else (some e, record c { entries = e ∷ unlink key c.entries })

  unfoldable pub cache_get : LruCache V → Bytes → ℤ → Option (CacheEntry V) × LruCache V
  unfolding cache_get_found
  cache_get c key now = cache_get_found c key (item key c.entries) now

  -- The loop of `Set`; none is a run that is not over when the fuel is.
  unfoldable pub make_room : ℕ → ℤ → List (CacheEntry V) → Option (List (CacheEntry V))
  unfolding evict
  make_room zero capacity entries = none
  make_room (suc fuel) capacity entries =
      let rest = make_room fuel capacity (evict entries) in
      if leb_ℤ capacity (pos (length entries)) then rest else some entries

  unfoldable pub push_entry :
      LruCache V → CacheEntry V → Option (List (CacheEntry V)) → Option (LruCache V)
  push_entry c e none = none
  push_entry c e (some entries) = some (record c { entries = e ∷ entries })

  unfoldable pub cache_set_found :
      ℕ → LruCache V → CacheEntry V → Option (CacheEntry V) → Option (LruCache V)
  unfolding make_room push_entry
  cache_set_found fuel c e (some old) = some (record c { entries = e ∷ unlink e.key c.entries })
  cache_set_found fuel c e none = push_entry c e (make_room fuel c.capacity c.entries)

  unfoldable pub cache_set : ℕ → LruCache V → Bytes → V → ℤ → ℤ → Option (LruCache V)
  unfolding cache_set_found
  cache_set fuel c key value ttl_nano now =
      let exp = if ltb_ℤ (pos 0) ttl_nano then wrap64 (now +ℤ ttl_nano) else pos 0 in
      cache_set_found fuel c (record { key = key; value = value; expires_at = exp })
        (item key c.entries)

  unfoldable pub cache_delete : LruCache V → Bytes → LruCache V
  unfolding unlink
  cache_delete c key = record c { entries = unlink key c.entries }

  unfoldable pub cache_len : LruCache V → ℕ
  cache_len c = length c.entries
