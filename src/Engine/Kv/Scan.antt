-- ===== src/Engine/Kv/Scan.antt =====
-- The methods of internal/engine/kv.go that go through all entries: `Keys`, `DBSize`, `KeyspaceStats`,
-- `KeyCount`, `ExpiredKeys`, `Snapshot` and `MemoryUsage`. Each entry has its reading of the clock.
pub mod Sound
use dbx_database_extreme.Base.{
  ℕ, zero, suc, ◌+◌, ◌*◌, Bool, true, false, ◌&&◌, not, Bytes, Option, none, some, List, [], ◌∷◌,
  ◌++◌, map, Dict, lookup, insert, length, eqb, ℤ, if◌then◌else◌,
}
use dbx_database_extreme.Engine.Entry.{Entry, Value, bytes_value, type_string, is_expired}
use dbx_database_extreme.Engine.Kv.{KvStore, Shard, ExpiryItem}
use dbx_database_extreme.Engine.Kv.Glob.{match_glob}

-- The entries in the order of the loops: shard by shard.
unfoldable pub all_entries : List Shard → Dict Entry
all_entries [] = []
all_entries (s ∷ shards) = s.entries ++ all_entries shards

-- The entries whose expiry is as wanted.
unfoldable pub select : Bool → Dict Entry → (ℕ → ℤ) → ℕ → Dict Entry
select expired [] clock n = []
select expired ((k, e) ∷ entries) clock n =
    let rest = select expired entries clock (suc n) in
    if (if is_expired e (clock n) then expired else not expired) then (k, e) ∷ rest else rest

unfoldable pub live_entries : KvStore → (ℕ → ℤ) → Dict Entry
unfolding all_entries select
live_entries kv clock = select false (all_entries kv.shards) clock 0

abbrev pub is_match : Option Bool → Bool
is_match none = false
is_match (some b) = b

unfoldable pub matching : Bytes → Dict Entry → List Bytes
matching pattern [] = []
matching pattern ((k, e) ∷ entries) =
    let rest = matching pattern entries in
    if is_match (match_glob pattern k) then k ∷ rest else rest

unfoldable pub keys : KvStore → Bytes → (ℕ → ℤ) → List Bytes
unfolding matching live_entries
keys kv pattern clock = matching pattern (live_entries kv clock)

unfoldable pub db_size : KvStore → (ℕ → ℤ) → ℕ
unfolding live_entries
db_size kv clock = length (live_entries kv clock)

-- stats[k]++
unfoldable pub count_of : Option ℕ → ℕ
count_of none = 0
count_of (some n) = n

unfoldable pub count_types : Dict Entry → Dict ℕ → Dict ℕ
unfolding count_of
count_types [] stats = stats
count_types ((k, e) ∷ entries) stats =
    count_types entries (insert e.typ (suc (count_of (lookup e.typ stats))) stats)

unfoldable pub keyspace_stats : KvStore → (ℕ → ℤ) → Dict ℕ
unfolding count_types live_entries
keyspace_stats kv clock = count_types (live_entries kv clock) []

unfoldable pub sum_counts : Dict ℕ → ℕ
sum_counts [] = 0
sum_counts ((k, n) ∷ stats) = n + sum_counts stats

-- none is the nil store.
unfoldable pub key_count : Option KvStore → (ℕ → ℤ) → ℕ
unfolding sum_counts keyspace_stats
key_count none clock = 0
key_count (some kv) clock = sum_counts (keyspace_stats kv clock)

unfoldable pub expired_keys : KvStore → (ℕ → ℤ) → List Bytes
unfolding all_entries select
expired_keys kv clock =
    map (λ (p : Bytes × Entry). p.0) (select true (all_entries kv.shards) clock 0)

unfoldable pub insert_all : Dict Entry → Dict Entry → Dict Entry
insert_all [] snap = snap
insert_all ((k, e) ∷ entries) snap = insert_all entries (insert k e snap)

unfoldable pub snapshot : KvStore → (ℕ → ℤ) → Dict Entry
unfolding insert_all live_entries
snapshot kv clock = insert_all (live_entries kv clock) []

-- 96 bytes for an entry, 48 for an item of the heap.
unfoldable pub entry_memory : Bytes → Entry → ℕ
entry_memory k e =
    length k
    + 96
    + (if eqb e.typ type_string then elim e.value [ bytes_value b ↦ length b | _ ↦ 0 ] else 0)

unfoldable pub entries_memory : Dict Entry → ℕ
unfolding entry_memory
entries_memory [] = 0
entries_memory ((k, e) ∷ entries) = entry_memory k e + entries_memory entries

unfoldable pub heaps_memory : List Shard → ℕ
heaps_memory [] = 0
heaps_memory (s ∷ shards) = length s.expiries * 48 + heaps_memory shards

unfoldable pub memory_usage : KvStore → (ℕ → ℤ) → ℕ
unfolding entries_memory heaps_memory live_entries
memory_usage kv clock = entries_memory (live_entries kv clock) + heaps_memory kv.shards
