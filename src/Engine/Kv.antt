-- ===== src/Engine/Kv.antt =====
-- internal/engine/kv.go: the sharded key-value store. Each method takes the readings of the clock
-- that it makes, in order, and returns the new store; a method that holds the lock of a shard is one
-- step. The locks themselves are not modelled.
pub mod Shards
pub mod Find
pub mod Expiry
pub mod Glob
pub mod Scan
pub mod Reaper
use dbx_database_extreme.Base.{
  ℕ, zero, suc, ◌+◌, ◌%◌, ◌/◌, ◌^◌, Bool, true, false, ◌&&◌, ◌||◌, not, Bytes, Option, none, some,
  List, [], ◌∷◌, ◌++◌, Dict, lookup, insert, erase, map, eqb, length, get_or, set, replicate, ltb,
  leb, ◌==◌, ℤ, pos, negsuc, ◌+ℤ◌, ◌-ℤ◌, ltb_ℤ, leb_ℤ, eqb_ℤ, wrap64, scale, pos_part, is_some,
  arith, if◌then◌else◌,
}
use dbx_database_extreme.Util.Hash.{shard_index}
use dbx_database_extreme.Engine.Entry.{
  Entry, Value, DataType, is_expired, other, nil_value, type_vector, type_none,
}

pub record ExpiryItem : Type 0 where
  pub key : Bytes
  pub deadline : ℤ
  pub version : ℕ

-- The heap of `container/heap`: its items in the order in which `heap.Pop` takes them.
pub record Shard : Type 0 where
  pub entries : Dict Entry
  pub expiries : List ExpiryItem

pub record KvStore : Type 0 where
  pub shards : List Shard
  pub num_shards : ℕ
  pub version : ℕ

abbrev pub default_num_shards : ℕ
default_num_shards = 256

abbrev pub empty_shard : Shard
empty_shard = record { entries = []; expiries = [] }

unfoldable pub new_sized : ℕ → KvStore
new_sized n = record { shards = replicate n empty_shard; num_shards = n; version = 0 }

-- What is not positive stands for the default number of shards.
unfoldable pub new : ℤ → KvStore
new num_shards =
    if leb_ℤ num_shards (pos 0)
    then new_sized default_num_shards
    else new_sized (pos_part num_shards)

unfoldable pub shard_of : KvStore → Bytes → Shard
shard_of kv key = get_or kv.shards (shard_index key kv.num_shards) empty_shard

-- The shard is reached by a pointer: what is changed in it is written back.
unfoldable pub put_shard : KvStore → Bytes → Shard → KvStore
put_shard kv key s = record kv { shards = set kv.shards (shard_index key kv.num_shards) s }

-- s.data[key]
unfoldable pub find : KvStore → Bytes → Option Entry
unfolding shard_of
find kv key = lookup key (shard_of kv key).entries

-- s.data[key] = e
unfoldable pub store : KvStore → Bytes → Entry → KvStore
unfolding shard_of put_shard
store kv key e =
    let s = shard_of kv key in put_shard kv key (record s { entries = insert key e s.entries })

-- delete(s.data, key)
unfoldable pub remove : KvStore → Bytes → KvStore
unfolding shard_of put_shard
remove kv key =
    let s = shard_of kv key in put_shard kv key (record s { entries = erase key s.entries })

-- `heap.Push`: behind the items that are due no later.
unfoldable pub heap_push : ExpiryItem → List ExpiryItem → List ExpiryItem
heap_push item [] = item ∷ []
heap_push item (x ∷ xs) =
    if ltb_ℤ item.deadline x.deadline then item ∷ x ∷ xs else x ∷ heap_push item xs

unfoldable pub push_expiry : KvStore → Bytes → ExpiryItem → KvStore
unfolding shard_of put_shard
push_expiry kv key item =
    let s = shard_of kv key in put_shard kv key (record s { expiries = heap_push item s.expiries })

-- The counter is a `uint64`.
unfoldable pub next_version : KvStore → ℕ
next_version kv = (kv.version + 1) % 2 ^ 64

unfoldable pub bump_version : KvStore → KvStore
unfolding next_version
bump_version kv = record kv { version = next_version kv }

-- The entry that `Set` leaves: one that is there keeps its creation time.
unfoldable pub written_entry : KvStore → Bytes → Value → DataType → ℤ → ℤ → Entry
written_entry kv key value typ exp now = record {
  value = value;
  typ = typ;
  expires_at = exp;
  version = next_version kv;
  created_at = elim (find kv key) [ none ↦ now | some e ↦ e.created_at ];
  updated_at = now;
}

unfoldable pub deadline_after : ℤ → ℤ → ℤ
deadline_after now ttl_nano = if ltb_ℤ (pos 0) ttl_nano then wrap64 (now +ℤ ttl_nano) else pos 0

unfoldable pub set_key : KvStore → Bytes → Value → DataType → ℤ → ℤ → KvStore
unfolding bump_version
set_key kv key value typ ttl_nano now =
    let exp = deadline_after now ttl_nano in
    let e = written_entry kv key value typ exp now in
    let kv' = store (bump_version kv) key e in
    if ltb_ℤ (pos 0) exp
    then push_expiry kv' key (record { key = key; deadline = exp; version = e.version })
    else kv'

unfoldable pub live : Option Entry → ℤ → Option Entry
live none now = none
live (some e) now = if is_expired e now then none else some e

-- `Get` and `GetForRead`.
unfoldable pub get : KvStore → Bytes → ℤ → Option Entry
unfolding live
get kv key now = live (find kv key) now

-- `GetForWrite`: an expired entry is dropped.
unfoldable pub drop_expired : KvStore → Bytes → Option Entry → ℤ → Option Entry × KvStore
drop_expired kv key none now = (none, kv)
drop_expired kv key (some e) now = if is_expired e now then (none, remove kv key) else (some e, kv)

unfoldable pub get_for_write : KvStore → Bytes → ℤ → Option Entry × KvStore
unfolding drop_expired
get_for_write kv key now = drop_expired kv key (find kv key) now

-- `Delete`, with the number of keys that were there. Closing a vector index has no effect here.
unfoldable pub delete_keys : KvStore → List Bytes → ℕ × KvStore
delete_keys kv [] = (0, kv)
delete_keys kv (key ∷ keys) =
    let there = is_some (find kv key) in
    let (n, kv') = delete_keys (if there then remove kv key else kv) keys in
    (if there then suc n else n, kv')

unfoldable pub exists_key : KvStore → Bytes → ℤ → Bool
exists_key kv key now = is_some (get kv key now)

unfoldable pub type_of : KvStore → Bytes → ℤ → DataType
type_of kv key now = elim (get kv key now) [ none ↦ type_none | some e ↦ e.typ ]

abbrev pub second : ℕ
second = 1_000_000_000

-- The deadline of `EXPIRE`, in `int64` arithmetic.
unfoldable pub deadline_in : ℤ → ℤ → ℤ
deadline_in now seconds = wrap64 (now +ℤ wrap64 (scale second seconds))

-- The clock is read by `IsExpired`, and again for the deadline.
unfoldable pub expire_entry : KvStore → Bytes → Option Entry → ℤ → ℤ → Bool × KvStore
expire_entry kv key none seconds now = (false, kv)
expire_entry kv key (some e) seconds now =
    if leb_ℤ seconds (pos 0)
    then (true, remove kv key)
    else let exp = deadline_in now seconds in
      let e' = record e { expires_at = exp; version = next_version kv } in
      (
        true,
        push_expiry (store (bump_version kv) key e') key
            (record { key = key; deadline = exp; version = e'.version }),
      )

unfoldable pub expire : KvStore → Bytes → ℤ → ℤ → ℤ → Bool × KvStore
unfolding expire_entry
expire kv key seconds now now' = expire_entry kv key (live (find kv key) now) seconds now'

-- `x / 1e9` of an `int64`, for a positive x.
unfoldable pub ttl_of : Option Entry → ℤ → ℤ
ttl_of none now = negsuc 1
ttl_of (some e) now =
    if eqb_ℤ e.expires_at (pos 0)
    then negsuc 0
    else let remaining = wrap64 (e.expires_at -ℤ now) in
      if leb_ℤ remaining (pos 0) then negsuc 1 else pos (pos_part remaining / second)

unfoldable pub ttl : KvStore → Bytes → ℤ → ℤ → ℤ
unfolding ttl_of
ttl kv key now now' = ttl_of (get kv key now) now'

unfoldable pub persist_entry : KvStore → Bytes → Option Entry → Bool × KvStore
persist_entry kv key none = (false, kv)
persist_entry kv key (some e) =
    if eqb_ℤ e.expires_at (pos 0)
    then (false, kv)
    else (true, store kv key (record e { expires_at = pos 0 }))

unfoldable pub persist : KvStore → Bytes → ℤ → Bool × KvStore
unfolding persist_entry
persist kv key now = persist_entry kv key (live (find kv key) now)

-- What `closeVectorEntry` leaves in an entry that `Delete` has taken out of the map.
unfoldable pub closed_value : Entry → Value
closed_value e =
    if eqb e.typ type_vector then elim e.value [ other h ↦ nil_value | v ↦ v ] else e.value

-- `Rename`; false is `ErrNotFound`. The entry is read again behind `Delete`.
unfoldable pub rename_entry : KvStore → Bytes → Bytes → Option Entry → ℤ → ℤ → Bool × KvStore
unfolding closed_value
rename_entry kv key new_key none now now' = (false, kv)
rename_entry kv key new_key (some e) now now' =
    let kv' = (delete_keys kv (key ∷ [])).1 in
    let remaining = wrap64 (e.expires_at -ℤ now) in
    if ltb_ℤ (pos 0) e.expires_at
    then if leb_ℤ remaining (pos 0)
      then (false, kv')
      else (true, set_key kv' new_key (closed_value e) e.typ remaining now')
    else (true, set_key kv' new_key (closed_value e) e.typ (pos 0) now')

unfoldable pub rename : KvStore → Bytes → Bytes → ℤ → ℤ → ℤ → Bool × KvStore
unfolding rename_entry
rename kv key new_key now now' now'' = rename_entry kv key new_key (get kv key now) now' now''

unfoldable pub flush_all : KvStore → KvStore
flush_all kv = record kv { shards = map (λ (s : Shard). record s { entries = [] }) kv.shards }
