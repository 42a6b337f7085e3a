-- ===== src/Engine/Kv/Scan/Sound.antt =====
-- The counts agree with the keys that are listed.
use dbx_database_extreme.Base.{
  ℕ, suc, ◌+◌, ◌≡◌, refl, ◌∙◌, ap, Bytes, some, [], ◌∷◌, Dict, lookup, insert, length, eqb, arith,
  ℤ, inl, inr, Bool-cases,
}
use dbx_database_extreme.Engine.Entry.{Entry}
use dbx_database_extreme.Engine.Kv.{KvStore}
use dbx_database_extreme.Engine.Kv.Glob.{match_glob, star_char}
use dbx_database_extreme.Engine.Kv.Scan.{
  matching, keys, db_size, count_of, count_types, sum_counts, keyspace_stats, key_count,
  live_entries,
}

matching-star : (entries : Dict Entry) → length (matching (star_char ∷ []) entries) ≡ length entries
unfolding matching match_glob eqb
matching-star [] = refl
matching-star ((k, e) ∷ entries) = ap suc (matching-star entries)

sum_counts-insert :
    (k : Bytes) (w : ℕ) (stats : Dict ℕ)
    → sum_counts (insert k w stats) + count_of (lookup k stats) ≡ sum_counts stats + w
unfolding sum_counts count_of lookup insert
sum_counts-insert k w [] = omega arith
sum_counts-insert k w ((j, n) ∷ stats) = elim (Bool-cases (eqb j k)) [
  | inl e ↦ rw e (omega arith)
  | inr e ↦ rw e (omega (arith, sum_counts-insert k w stats))
]

sum_counts-count_types :
    (entries : Dict Entry) (stats : Dict ℕ)
    → sum_counts (count_types entries stats) ≡ length entries + sum_counts stats
unfolding count_types
sum_counts-count_types [] stats = omega arith
sum_counts-count_types ((k, e) ∷ entries) stats =
    sum_counts-count_types entries (insert e.typ (suc (count_of (lookup e.typ stats))) stats)
    ∙ omega (arith, sum_counts-insert e.typ (suc (count_of (lookup e.typ stats))) stats)

-- With the same readings of the clock, DBSize, KeyCount and the number of keys that the pattern `*` lists
-- are one number.
db_size-keys :
    (kv : KvStore) (clock : ℕ → ℤ)
    → (length (keys kv (star_char ∷ []) clock) ≡ db_size kv clock)
      × (key_count (some kv) clock ≡ db_size kv clock)
unfolding keys db_size key_count keyspace_stats
db_size-keys kv clock = (
  matching-star (live_entries kv clock),
  sum_counts-count_types (live_entries kv clock) [] ∙ unfold sum_counts in omega arith,
)
