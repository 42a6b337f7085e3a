-- ===== src/Engine/Kv/Reaper.antt =====
-- `DeleteExpiredLimit` of internal/engine/kv.go: the reaper that takes due keys off the shards' heaps.
pub mod Drain
pub mod Order
pub mod Sound
use dbx_database_extreme.Base.{
  ℕ, zero, suc, ◌+◌, Bool, true, false, ◌&&◌, ◌||◌, not, Bytes, Option, none, some, List, [], ◌∷◌,
  Dict, lookup, erase, ltb, leb, ◌==◌, ℤ, ltb_ℤ, eqb_ℤ, if◌then◌else◌,
}
use dbx_database_extreme.Engine.Entry.{Entry}
use dbx_database_extreme.Engine.Kv.{ExpiryItem, Shard, KvStore}

-- The entry is gone, or was written again behind the item.
unfoldable pub is_stale : Option Entry → ExpiryItem → Bool
is_stale none item = true
is_stale (some e) item = not (e.version == item.version) || not (eqb_ℤ e.expires_at item.deadline)

abbrev pub below_limit : ℕ → ℕ → Bool
below_limit limit count = limit == 0 || ltb count limit

-- The loop over one heap. A limit that is not positive is 0. The result is the number of keys taken
-- so far, and the shard.
unfoldable pub drain : ℕ → ℤ → ℕ → Dict Entry → List ExpiryItem → ℕ × Shard
unfolding is_stale
drain limit now count entries [] = (count, record { entries = entries; expiries = [] })
drain limit now count entries (item ∷ rest) =
    let stale = is_stale (lookup item.key entries) item in
    let next =
      drain limit now (if stale then count else suc count)
        (if stale then entries else erase item.key entries) rest in
    if not (below_limit limit count)
    then (count, record { entries = entries; expiries = item ∷ rest })
    else if ltb_ℤ now item.deadline
    then (count, record { entries = entries; expiries = item ∷ rest })
    else next

-- The loop over the shards ends when the limit is reached.
unfoldable pub reap_shards : ℕ → ℤ → ℕ → List Shard → ℕ × List Shard
unfolding drain
reap_shards limit now count [] = (count, [])
reap_shards limit now count (s ∷ shards) =
    let (count', s') = drain limit now count s.entries s.expiries in
    let (total, shards') = reap_shards limit now count' shards in
    if ltb 0 limit && leb limit count' then (count', s' ∷ shards) else (total, s' ∷ shards')

unfoldable pub delete_expired_limit : KvStore → ℕ → ℤ → ℕ × KvStore
unfolding reap_shards
delete_expired_limit kv limit now =
    let (count, shards) = reap_shards limit now 0 kv.shards in
    (count, record kv { shards = shards })

unfoldable pub delete_expired : KvStore → ℤ → ℕ × KvStore
unfolding delete_expired_limit
delete_expired kv now = delete_expired_limit kv 0 now
