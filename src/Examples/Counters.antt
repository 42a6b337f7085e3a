-- ===== src/Examples/Counters.antt =====
-- A counter that expires while INCR is executed.
use dbx_database_extreme.Base.{
  ◌≡◌, refl, ap, Bytes, none, some, [], ◌∷◌, arith, codes, pos, eqb, lookup, insert, wrap64, ◌+ℤ◌,
}
use dbx_database_extreme.Util.Hash.{shard_index}
use dbx_database_extreme.Util.Decimal.{parse_int, format_int}
use dbx_database_extreme.Engine.Entry.{Entry, bytes_value, type_string, is_expired}
use dbx_database_extreme.Engine.Kv.{
  KvStore, new, new_sized, get, find, set_key, deadline_after, push_expiry, store, written_entry,
}
use dbx_database_extreme.Engine.Kv.Shards.{new-IsSharded}
use dbx_database_extreme.Engine.Strings.{incr}
use dbx_database_extreme.Persistence.Recovery.{replay_effects}
use dbx_database_extreme.Query.Effects.{string_state, state_of, holding, incr_effect, put}
use dbx_database_extreme.Query.Crash.View.{view, new-IsClean, IsStep}
use dbx_database_extreme.Query.Crash.Written.{IsHeld, set_key-IsStep}
use dbx_database_extreme.Query.Crash.Between.{incr-lost}

abbrev hits : Bytes
hits = codes "hits"

-- 7 hits, set at 100 for 50 nanoseconds.
abbrev counted : KvStore
counted = set_key (new (pos 4)) hits (bytes_value (codes "7")) type_string (pos 50) (pos 100)

abbrev counted_entry : Entry
counted_entry = record {
  value = bytes_value (codes "7");
  typ = type_string;
  expires_at = pos 150;
  version = 1;
  created_at = pos 100;
  updated_at = pos 100;
}

counted-found : get counted hits (pos 120) ≡ some counted_entry
unfolding get find lookup set_key deadline_after wrap64 ◌+ℤ◌ push_expiry store new new_sized
    shard_index insert eqb is_expired written_entry
counted-found = refl

counted-state : string_state counted hits (pos 120) ≡ holding (codes "7") (pos 150)
unfolding string_state state_of eqb
counted-state = ap state_of counted-found

counted-IsHeld : IsHeld counted hits 120
counted-IsHeld = record {
  entry = counted_entry;
  held = codes "7";
  due = 150;
  found = counted-found;
  has_state = counted-state;
  has_value = refl;
  has_typ = refl;
  has_deadline = refl;
  in_range = omega arith;
}

counted-IsStep : IsStep (new (pos 4)) counted (put hits (codes "7") (pos 150) ∷ []) 100
unfolding deadline_after wrap64 ◌+ℤ◌
counted-IsStep =
    set_key-IsStep (new (pos 4)) (new-IsClean (pos 4)) (new-IsSharded (pos 4)) hits 100 (codes "7")
      50 150 (omega arith) refl

-- Prepared at 120, executed at 160, recovered at 400.
incr-lost_example :
    (view (incr counted hits (pos 1) (pos 160)).1 hits 500
      ≡ some (bytes_value (format_int (wrap64 (pos 0 +ℤ pos 1))), type_string, pos 0))
    × (incr_effect hits (string_state counted hits (pos 120)) (some (pos 1))
        ≡ put hits (format_int (wrap64 (pos 7 +ℤ pos 1))) (pos 150) ∷ [])
    × ((kv' : KvStore) × (replay_effects
            (λ i. pos 400)
            0
            (new (pos 4))
            (incr_effect hits (string_state counted hits (pos 120)) (some (pos 1)))
          ≡ some kv')
        × (view kv' hits 500 ≡ none))
unfolding counted-IsHeld parse_int
incr-lost_example =
    incr-lost counted (new (pos 4)) hits 120 160 400 500 (pos 7) (pos 1) counted-IsHeld
      counted-IsStep.clean counted-IsStep.sharded (new-IsSharded (pos 4)) (omega arith, omega arith)
      refl (omega arith) (omega arith) (omega arith) (omega arith) (omega arith)
