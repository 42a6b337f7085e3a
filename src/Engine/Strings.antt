-- ===== src/Engine/Strings.antt =====
-- internal/engine/string.go. A stored value is a `[]byte`; nil and the empty slice differ only where the
-- code tests for nil, which an absent key stands for.
pub mod SetArgs
pub mod Sound
use dbx_database_extreme.Base.{
  ℕ, zero, suc, ◌+◌, ◌-◌, Bool, true, false, not, ◌&&◌, ◌||◌, Bytes, Option, none, some, List, [],
  ◌∷◌, ◌++◌, length, take, drop, replicate, map, ltb, eqb, Dict, ℤ, pos, negsuc, ◌+ℤ◌, wrap64,
  scale, leb_ℤ, if◌then◌else◌, refl,
}
use dbx_database_extreme.Util.Decimal.{parse_int, format_int}
use dbx_database_extreme.Engine.Entry.{Entry, Value, bytes_value, type_string, fresh_entry}
use dbx_database_extreme.Engine.Kv.{
  KvStore, second, set_key, exists_key, store, next_version, bump_version, get_for_write,
}
use dbx_database_extreme.Engine.Typed.{
  Kind, Answer, done, failed, panicked, value_out_of_range, wrong_type, Opened, opened, refused,
  not_asserted, assert_kind, modify, inspect,
}
use dbx_database_extreme.Engine.Lists.{range_of, slice}

as_bytes : Value → Option Bytes
as_bytes v = elim v [ bytes_value b ↦ some b | _ ↦ none ]

unfoldable pub string_kind : Kind Bytes
unfolding as_bytes
string_kind = record {
  typ = type_string;
  empty = [];
  inject = bytes_value;
  project = as_bytes;
  project-inject = λ b. refl;
}

-- none is nil.
unfoldable pub get_string : KvStore → Bytes → ℤ → Answer (Option Bytes)
get_string kv key now = inspect string_kind kv key now (done none) (λ v. done (some v))

-- The readings of the clock: by the two calls of `Exists`, and by the write.
unfoldable pub set_string : KvStore → Bytes → Bytes → ℤ → Bool → Bool → ℤ → ℤ → ℤ → Bool × KvStore
set_string kv key value ttl_seconds nx xx now now' now'' =
    if nx && exists_key kv key now
    then (false, kv)
    else if xx && not (exists_key kv key now')
    then (false, kv)
    else (
      true,
      set_key kv key (bytes_value value) type_string (wrap64 (scale second ttl_seconds)) now'',
    )

unfoldable pub get_set_step :
    KvStore → Bytes → Bytes → Answer (Option Bytes) → ℤ → Answer (Option Bytes) × KvStore
get_set_step kv key value (done old) now =
    (done old, set_key kv key (bytes_value value) type_string (pos 0) now)
get_set_step kv key value (failed e) now = (failed e, kv)
get_set_step kv key value panicked now = (panicked, kv)

unfoldable pub get_set : KvStore → Bytes → Bytes → ℤ → ℤ → Answer (Option Bytes) × KvStore
unfolding get_set_step get_string
get_set kv key value now now' = get_set_step kv key value (get_string kv key now) now'

-- The counter behind an entry that is there.
unfoldable pub incr_parsed : KvStore → Bytes → Entry → Option ℤ → ℤ → Answer ℤ × KvStore
incr_parsed kv key e none by = (failed value_out_of_range, kv)
incr_parsed kv key e (some v) by =
    let n = wrap64 (v +ℤ by) in
    (
      done n,
      store (bump_version kv) key
          (record e { value = bytes_value (format_int n); version = next_version kv }),
    )

unfoldable pub incr_opened : KvStore → Bytes → Opened Bytes → ℤ → Answer ℤ × KvStore
unfolding incr_parsed
incr_opened kv key (opened e v) by = incr_parsed kv key e (parse_int v) by
incr_opened kv key refused by = (failed wrong_type, kv)
incr_opened kv key not_asserted by = (panicked, kv)

unfoldable pub incr_found : KvStore → Bytes → Option Entry → ℤ → Answer ℤ × KvStore
unfolding incr_opened
incr_found kv key none by = (
  done by,
  store (bump_version kv) key (record (fresh_entry (bytes_value (format_int by)) type_string) {
    version = next_version kv;
  }),
)
incr_found kv key (some e) by = incr_opened kv key (assert_kind string_kind e) by

unfoldable pub incr : KvStore → Bytes → ℤ → ℤ → Answer ℤ × KvStore
unfolding incr_found
incr kv key by now = incr_found (get_for_write kv key now).1 key (get_for_write kv key now).0 by

unfoldable pub append_to : KvStore → Bytes → Bytes → ℤ → Answer ℕ × KvStore
append_to kv key value now =
    modify string_kind kv key now (λ v. (done (length (v ++ value)), v ++ value))

unfoldable pub strlen : KvStore → Bytes → ℤ → Answer ℕ
strlen kv key now = inspect string_kind kv key now (done 0) (λ v. done (length v))

-- The bounds are worked out as those of LRANGE.
unfoldable pub get_range : KvStore → Bytes → ℤ → ℤ → ℤ → Answer Bytes
get_range kv key start end now =
    inspect string_kind kv key now (done []) (λ v. done (slice (range_of (length v) start end) v))

-- The bytes from the offset on are overwritten, behind zeros if the value is too short.
unfoldable pub overwrite : ℕ → Bytes → Bytes → Bytes
overwrite offset value current =
    let extended = current ++ replicate (offset + length value - length current) 0 in
    take offset extended ++ (value ++ drop (offset + length value) extended)

unfoldable pub write_range : ℕ → Bytes → Bytes → Answer ℕ × Bytes
unfolding overwrite
write_range offset value current =
    (done (length (overwrite offset value current)), overwrite offset value current)

-- A negative offset: `current[offset:]` panics before anything is stored, unless the key has another type.
unfoldable pub before_start : Option Entry → Answer ℕ
before_start none = panicked
before_start (some e) = if eqb e.typ type_string then panicked else failed wrong_type

unfoldable pub set_range : KvStore → Bytes → ℤ → Bytes → ℤ → Answer ℕ × KvStore
unfolding write_range before_start
set_range kv key (negsuc n) value now =
    let (e, kv') = get_for_write kv key now in (before_start e, kv')
set_range kv key (pos offset) value now = modify string_kind kv key now (write_range offset value)

-- An error counts as nil. Each read has its reading of the clock.
unfoldable pub or_nil : Answer (Option Bytes) → Answer (Option Bytes)
or_nil (done v) = done v
or_nil (failed e) = done none
or_nil panicked = panicked

unfoldable pub collect_answers : List (Answer (Option Bytes)) → Answer (List (Option Bytes))
collect_answers [] = done []
collect_answers (a ∷ answers) = elim a [
  | done v ↦ elim (collect_answers answers) [
    | done vs ↦ done (v ∷ vs)
    | failed e ↦ failed e
    | panicked ↦ panicked
  ]
  | failed e ↦ failed e
  | panicked ↦ panicked
]

unfoldable pub mget : KvStore → List (Bytes × ℤ) → Answer (List (Option Bytes))
unfolding or_nil collect_answers get_string
mget kv keys = collect_answers (map (λ (k : Bytes × ℤ). or_nil (get_string kv k.0 k.1)) keys)

-- The pairs are a Go map, whose order is not fixed; each write has its reading of the clock.
unfoldable pub mset : KvStore → List (Bytes × Bytes × ℤ) → KvStore
mset kv [] = kv
mset kv ((key, value, now) ∷ pairs) =
    mset (set_key kv key (bytes_value value) type_string (pos 0) now) pairs
