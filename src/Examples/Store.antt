-- ===== src/Examples/Store.antt =====
-- A store of four shards, a key with a deadline and one without.
use dbx_database_extreme.Base.{
  ◌≡◌, refl, none, some, [], ◌∷◌, arith, codes, pos, negsuc, inl, eqb, lookup, insert, wrap64, ◌+ℤ◌,
}
use dbx_database_extreme.Base.{ℕ, ◌≤◌, false}
use dbx_database_extreme.Engine.Kv.Glob.{match_glob, star_char}
use dbx_database_extreme.Engine.Kv.Glob.Spec.{glob}
use dbx_database_extreme.Engine.Kv.Glob.Ends.{match_glob-glob}
use dbx_database_extreme.Util.Hash.{shard_index}
use dbx_database_extreme.Util.Decimal.{parse_int, format_int, parse_int-format_int}
use dbx_database_extreme.Engine.Entry.{Entry, Value, bytes_value, type_string, is_expired}
use dbx_database_extreme.Engine.Kv.{
  KvStore, new, shard_of, find, store, set_key, written_entry, get, expire, ttl, live,
  deadline_after, push_expiry, heap_push, new_sized,
}
use dbx_database_extreme.Engine.Kv.Shards.{IsSharded, new-IsSharded}
use dbx_database_extreme.Engine.Kv.Find.{set_key-IsSharded, get-set_key}
use dbx_database_extreme.Engine.Kv.Expiry.{ttl-expire}
use dbx_database_extreme.Engine.Kv.Reaper.{delete_expired_limit, delete_expired}
use dbx_database_extreme.Engine.Kv.Reaper.Drain.{Reaped, InHeap, IsOrdered, item_of}
use dbx_database_extreme.Engine.Kv.Reaper.Sound.{
  delete_expired_limit-Reaped, delete_expired_complete,
}

parse_int-format_int_example : parse_int (format_int (negsuc 41)) ≡ some (negsuc 41)
parse_int-format_int_example = parse_int-format_int (negsuc 41) (omega arith, omega arith)

abbrev four : KvStore
four = new (pos 4)

four-IsSharded : IsSharded four
four-IsSharded = new-IsSharded (pos 4)

abbrev delhi : Value
delhi = bytes_value (codes "Delhi")

-- The key dies at 150.
abbrev filled : KvStore
filled = set_key four (codes "city") delhi type_string (pos 50) (pos 100)

filled-IsSharded : IsSharded filled
filled-IsSharded =
    set_key-IsSharded four four-IsSharded (codes "city") delhi type_string (pos 50) (pos 100)

abbrev city_entry : Entry
city_entry = record {
  value = delhi;
  typ = type_string;
  expires_at = pos 150;
  version = 1;
  created_at = pos 100;
  updated_at = pos 100;
}

find_city : find filled (codes "city") ≡ some city_entry
unfolding find set_key written_entry deadline_after new lookup wrap64 ◌+ℤ◌ push_expiry store
    new_sized shard_index insert eqb
find_city = refl

get-set_key_example :
    get (set_key four (codes "city") delhi type_string (pos 50) (pos 100)) (codes "city") (pos 151)
    ≡ none
unfolding eqb ◌+ℤ◌
get-set_key_example =
    get-set_key four four-IsSharded (codes "city") delhi type_string (pos 50) (pos 100)
      (codes "city") (pos 151) (omega arith) (omega arith, omega arith)

city_there : get filled (codes "city") (pos 120) ≡ some city_entry
unfolding get live is_expired
city_there = rw find_city

ttl-expire_example :
    ttl
      (expire filled (codes "city") (pos 10) (pos 120) (pos 130)).1
      (codes "city")
      (pos 2_000_000_000)
      (pos 2_000_000_000)
    ≡ pos 8
ttl-expire_example =
    ttl-expire filled filled-IsSharded (codes "city") city_entry 9 130 2_000_000_000 (pos 120)
      city_there (omega arith) (omega arith)

delete_expired_limit-Reaped_example :
    Reaped
      (pos 200)
      (codes "city")
      (shard_of filled (codes "city")).expiries
      (find filled (codes "city"))
      (find (delete_expired_limit filled 5 (pos 200)).1 (codes "city"))
delete_expired_limit-Reaped_example = delete_expired_limit-Reaped filled 5 (pos 200) (codes "city")

city_heap : (shard_of filled (codes "city")).expiries ≡ item_of (codes "city") city_entry ∷ []
unfolding shard_of set_key written_entry deadline_after new wrap64 ◌+ℤ◌ push_expiry store new_sized
    shard_index heap_push
city_heap = refl

city-IsOrdered : IsOrdered (shard_of filled (codes "city")).expiries
city-IsOrdered = rw city_heap (tt, tt)

city_tracked : InHeap (item_of (codes "city") city_entry) (shard_of filled (codes "city")).expiries
city_tracked = rw city_heap (inl refl)

delete_expired_complete_example : find (delete_expired filled (pos 200)).1 (codes "city") ≡ none
delete_expired_complete_example =
    delete_expired_complete filled (pos 200) (codes "city") city_entry filled-IsSharded
      city-IsOrdered find_city city_tracked (omega arith)

no_star : (c : ℕ) → 43 ≤ c → ¬ (c ≡ star_char)
no_star c h = λ e. omega arith

match_glob-glob_example :
    match_glob (codes "c?*y") (codes "city") ≡ some (glob (codes "c?*y") (codes "city"))
match_glob-glob_example = match_glob-glob (codes "c?*y") (codes "city") (
  no_star 99 (omega arith),
  (no_star 105 (omega arith), (no_star 116 (omega arith), (no_star 121 (omega arith), tt))),
)

-- A star of the key is taken for the star of the pattern.
star_of_key : match_glob (codes "*a") (codes "*ba") ≡ some false
unfolding match_glob eqb
star_of_key = refl
