-- ===== src/Engine/Kv/Reaper/Sound.antt =====
-- The reaper over all shards.
use dbx_database_extreme.Base.{
  ℕ, zero, suc, ◌≤◌, ◌<◌, ◌≡◌, refl, ap, ◌&&◌, Bytes, none, some, List, [], ◌∷◌, arith, ltb, leb,
  get_or, length, lookup, ℤ, ◌≤ℤ◌, Bool-cases, ◌⊎◌, inl, inr,
}
use dbx_database_extreme.Util.Hash.{shard_index, shard_index-lt}
use dbx_database_extreme.Engine.Entry.{Entry}
use dbx_database_extreme.Engine.Kv.{Shard, KvStore, empty_shard, find, shard_of}
use dbx_database_extreme.Engine.Kv.Shards.{IsSharded}
use dbx_database_extreme.Engine.Kv.Reaper.{drain, reap_shards, delete_expired_limit, delete_expired}
use dbx_database_extreme.Engine.Kv.Reaper.Drain.{
  Reaped, drain-Reaped, drain-le, drain_complete, InHeap, IsOrdered, item_of,
}

-- A shard is left alone or drained.
reap_shards-get_or :
    (limit : ℕ) (now : ℤ) (count : ℕ) (shards : List Shard) (i : ℕ)
    → (get_or (reap_shards limit now count shards).1 i empty_shard ≡ get_or shards i empty_shard)
      ⊎ ((c : ℕ) × (get_or (reap_shards limit now count shards).1 i empty_shard
            ≡ (drain limit now c
                (get_or shards i empty_shard).entries
                (get_or shards i empty_shard).expiries).1))
unfolding reap_shards
reap_shards-get_or limit now count [] i = inl refl
reap_shards-get_or limit now count (s ∷ shards) zero = inr (count, ground arith)
reap_shards-get_or limit now count (s ∷ shards) (suc i) =
    let count' = (drain limit now count s.entries s.expiries).0 in
    elim (Bool-cases (ltb 0 limit && leb limit count')) [
      | inl full ↦ inl (rw full)
      | inr more ↦ rw more (reap_shards-get_or limit now count' shards i)
    ]

-- With no limit every shard is drained.
reap_shards-all :
    (now : ℤ) (count : ℕ) (shards : List Shard) (i : ℕ)
    → i < length shards
    → (c : ℕ) × (get_or (reap_shards 0 now count shards).1 i empty_shard
        ≡ (drain 0 now c
            (get_or shards i empty_shard).entries
            (get_or shards i empty_shard).expiries).1)
unfolding reap_shards
reap_shards-all now count [] i h = absurd (omega arith)
reap_shards-all now count (s ∷ shards) zero h = (count, refl)
reap_shards-all now count (s ∷ shards) (suc i) h =
    reap_shards-all now (drain 0 now count s.entries s.expiries).0 shards i (omega arith)

reap_shards-le :
    (limit : ℕ) (now : ℤ) (count : ℕ) (shards : List Shard)
    → count ≤ limit
    → 0 < limit
    → (reap_shards limit now count shards).0 ≤ limit
unfolding reap_shards
reap_shards-le limit now count [] h p = h
reap_shards-le limit now count (s ∷ shards) h p =
    let d = drain-le limit now count s.entries s.expiries h p in
    let ih = reap_shards-le limit now (drain limit now count s.entries s.expiries).0 shards d p in
    ground arith

-- Whatever the limit, a key reads as before the reaper ran, or it is gone, its deadline was due, and
-- the heap of its shard held the item of that very entry.
pub delete_expired_limit-Reaped :
    (kv : KvStore) (limit : ℕ) (now : ℤ) (key : Bytes)
    → Reaped now key
        (shard_of kv key).expiries
        (find kv key)
        (find (delete_expired_limit kv limit now).1 key)
unfolding delete_expired_limit find
delete_expired_limit-Reaped kv limit now key =
    let i = shard_index key kv.num_shards in
    elim (reap_shards-get_or limit now 0 kv.shards i) [
      | inl e ↦ inl (ap (λ (s : Shard). lookup key s.entries) e)
      | inr (c, e) ↦ rw e (
          drain-Reaped limit now c (get_or kv.shards i empty_shard).entries
            (get_or kv.shards i empty_shard).expiries key)
    ]

-- A positive limit bounds the number of keys that one run of the reaper takes.
delete_expired_limit-le :
    (kv : KvStore) (limit : ℕ) (now : ℤ) → 0 < limit → (delete_expired_limit kv limit now).0 ≤ limit
unfolding delete_expired_limit
delete_expired_limit-le kv limit now p = reap_shards-le limit now 0 kv.shards (omega arith) p

-- A run of the reaper with no limit takes a key whose deadline is due, if the heap of its shard
-- is in order and holds the item of its entry.
pub delete_expired_complete :
    (kv : KvStore) (now : ℤ) (key : Bytes) (e : Entry)
    → IsSharded kv
    → IsOrdered (shard_of kv key).expiries
    → find kv key ≡ some e
    → InHeap (item_of key e) (shard_of kv key).expiries
    → e.expires_at ≤ℤ now
    → find (delete_expired kv now).1 key ≡ none
unfolding delete_expired find
delete_expired_complete kv now key e sharded order there tracked due =
    let i = shard_index key kv.num_shards in
    let (c, p) =
      reap_shards-all now 0 kv.shards i
        (omega (arith, shard_index-lt key kv.num_shards sharded.positive, sharded.count)) in
    rw p (
      drain_complete now key e due c (get_or kv.shards i empty_shard).entries
        (get_or kv.shards i empty_shard).expiries order tracked there)
