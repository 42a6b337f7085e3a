-- ===== src/Engine/Kv/Shards.antt =====
-- The shards hide behind `find`: a change of one key is seen at that key alone, whichever shards the
-- hash of the keys selects.
use dbx_database_extreme.Base.{
  ℕ, ◌<◌, ◌≡◌, refl, ap, true, Bytes, none, some, arith, length, get_or, get_or-set, length-set,
  insert, erase, lookup-insert, lookup-erase, eqb, eqb_sound, ◌==◌, ==_iff, if◌then◌else◌,
  Bool-cases, inl, inr, length-replicate, ℤ, pos, leb_ℤ, pos_part,
}
use dbx_database_extreme.Util.Hash.{shard_index, shard_index-lt}
use dbx_database_extreme.Engine.Entry.{Entry}
use dbx_database_extreme.Engine.Kv.{
  Shard, ExpiryItem, KvStore, empty_shard, shard_of, put_shard, find, store, remove, push_expiry,
  heap_push, bump_version, new_sized, new,
}

-- There are as many shards as the store says, and one at least.
pub record IsSharded (kv : KvStore) : Type 0 where
  pub count : length kv.shards ≡ kv.num_shards
  pub positive : 0 < kv.num_shards

new_sized-IsSharded : (n : ℕ) → 0 < n → IsSharded (new_sized n)
unfolding new_sized
new_sized-IsSharded n h = record { count = length-replicate n empty_shard; positive = h }

pub new-IsSharded : (n : ℤ) → IsSharded (new n)
unfolding new
new-IsSharded n = elim (Bool-cases (leb_ℤ n (pos 0))) [
  | inl e ↦ rw e (new_sized-IsSharded 256 (omega arith))
  | inr e ↦ rw e (new_sized-IsSharded (pos_part n) (ground arith))
]

module _ (kv : KvStore) (h : IsSharded kv) (key : Bytes) where
  put_shard-IsSharded : (s : Shard) → IsSharded (put_shard kv key s)
  unfolding put_shard
  put_shard-IsSharded s = record {
    count = omega (arith, length-set kv.shards (shard_index key kv.num_shards) s, h.count);
    positive = h.positive;
  }

  shard_of-put_shard :
      (s : Shard) (j : Bytes)
      → shard_of (put_shard kv key s) j ≡ (
          if shard_index key kv.num_shards == shard_index j kv.num_shards then s else shard_of kv j)
  unfolding put_shard shard_of
  shard_of-put_shard s j =
      get_or-set kv.shards (shard_index key kv.num_shards) (shard_index j kv.num_shards) s
        empty_shard (omega (arith, shard_index-lt key kv.num_shards h.positive, h.count))

  shard_of_same :
      (j : Bytes)
      → (shard_index key kv.num_shards == shard_index j kv.num_shards) ≡ true
      → shard_of kv key ≡ shard_of kv j
  unfolding shard_of
  shard_of_same j e =
      ap (λ (i : ℕ). get_or kv.shards i empty_shard)
        ((==_iff (shard_index key kv.num_shards) (shard_index j kv.num_shards)).0 e)

  same_shard :
      (j : Bytes)
      → eqb key j ≡ true
      → (shard_index key kv.num_shards == shard_index j kv.num_shards) ≡ true
  same_shard j e =
      (==_iff _ _).1 (ap (λ (k : Bytes). shard_index k kv.num_shards) (eqb_sound key j e))

  -- An entry written is read back at its key, and every other key reads as before.
  pub find-store :
      (e : Entry) (j : Bytes) → find (store kv key e) j ≡ (if eqb key j then some e else find kv j)
  unfolding store find
  find-store e j =
      rw
        (shard_of-put_shard
          (record (shard_of kv key) { entries = insert key e (shard_of kv key).entries }) j)
        (ground
          (arith, same_shard j, shard_of_same j, lookup-insert key j e (shard_of kv key).entries))

  pub find-remove : (j : Bytes) → find (remove kv key) j ≡ (if eqb key j then none else find kv j)
  unfolding remove find
  find-remove j =
      rw
        (shard_of-put_shard
          (record (shard_of kv key) { entries = erase key (shard_of kv key).entries }) j)
        (ground
          (arith, same_shard j, shard_of_same j, lookup-erase key j (shard_of kv key).entries))

  pub find-push_expiry :
      (item : ExpiryItem) (j : Bytes) → find (push_expiry kv key item) j ≡ find kv j
  unfolding push_expiry find
  find-push_expiry item j =
      rw
        (shard_of-put_shard
          (record (shard_of kv key) { expiries = heap_push item (shard_of kv key).expiries }) j)
        (ground (arith, shard_of_same j))

  pub store-IsSharded : (e : Entry) → IsSharded (store kv key e)
  unfolding store
  store-IsSharded e = put_shard-IsSharded _

  pub remove-IsSharded : IsSharded (remove kv key)
  unfolding remove
  remove-IsSharded = put_shard-IsSharded _

  pub push_expiry-IsSharded : (item : ExpiryItem) → IsSharded (push_expiry kv key item)
  unfolding push_expiry
  push_expiry-IsSharded item = put_shard-IsSharded _

pub bump_version-IsSharded : {kv : KvStore} → IsSharded kv → IsSharded (bump_version kv)
unfolding bump_version
bump_version-IsSharded h = record { count = h.count; positive = h.positive }

pub find-bump_version : (kv : KvStore) (j : Bytes) → find (bump_version kv) j ≡ find kv j
unfolding find bump_version
find-bump_version kv j = refl
