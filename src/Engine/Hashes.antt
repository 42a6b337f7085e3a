-- ===== src/Engine/Hashes.antt =====
-- internal/engine/hash.go. A hash is Go's `map[string][]byte`.
pub mod Sound
use dbx_database_extreme.Base.{
  ℕ, zero, suc, ◌+◌, Bool, false, Bytes, Option, none, some, List, [], ◌∷◌, length, map, Dict,
  is_some, lookup, insert, erase, ℤ, pos, ◌+ℤ◌, wrap64, if◌then◌else◌, refl,
}
use dbx_database_extreme.Util.Decimal.{parse_int, format_int}
use dbx_database_extreme.Engine.Entry.{Value, hash_value, type_hash}
use dbx_database_extreme.Engine.Kv.{KvStore}
use dbx_database_extreme.Engine.Typed.{
  Kind, Answer, done, failed, value_out_of_range, modify, inspect,
}

as_hash : Value → Option (Dict Bytes)
as_hash v = elim v [ hash_value m ↦ some m | _ ↦ none ]

unfoldable pub hash_kind : Kind (Dict Bytes)
unfolding as_hash
hash_kind = record {
  typ = type_hash;
  empty = [];
  inject = hash_value;
  project = as_hash;
  project-inject = λ m. refl;
}

-- The loop over the pairs. They are a Go map, whose order is not fixed: the last stands first here.
unfoldable pub set_fields : Dict Bytes → Dict Bytes → ℕ × Dict Bytes
set_fields [] m = (0, m)
set_fields ((f, v) ∷ pairs) m =
    let (added, m') = set_fields pairs m in
    (if is_some (lookup f m') then added else suc added, insert f v m')

unfoldable pub delete_fields : List Bytes → Dict Bytes → ℕ × Dict Bytes
delete_fields [] m = (0, m)
delete_fields (f ∷ fields) m =
    let there = is_some (lookup f m) in
    let (deleted, m') = delete_fields fields (if there then erase f m else m) in
    (if there then suc deleted else deleted, m')

-- A field that is absent counts as 0.
unfoldable pub field_value : Option Bytes → Option ℤ
field_value none = some (pos 0)
field_value (some v) = parse_int v

unfoldable pub add_to_field : Bytes → ℤ → Dict Bytes → Answer ℤ × Dict Bytes
unfolding field_value
add_to_field field delta m = elim (field_value (lookup field m)) [
  | none ↦ (failed value_out_of_range, m)
  | some n ↦ (done (wrap64 (n +ℤ delta)), insert field (format_int (wrap64 (n +ℤ delta))) m)
]

unfoldable pub hset : KvStore → Bytes → Dict Bytes → ℤ → Answer ℕ × KvStore
hset kv key pairs now =
    modify hash_kind kv key now (λ m. (done (set_fields pairs m).0, (set_fields pairs m).1))

unfoldable pub hget : KvStore → Bytes → Bytes → ℤ → Answer (Option Bytes)
hget kv key field now = inspect hash_kind kv key now (done none) (λ m. done (lookup field m))

-- An absent key has no field.
unfoldable pub hmget : KvStore → Bytes → List Bytes → ℤ → Answer (List (Option Bytes))
hmget kv key fields now =
    inspect hash_kind kv key now (done (map (λ (f : Bytes). none) fields))
      (λ m. done (map (λ (f : Bytes). lookup f m) fields))

unfoldable pub hdel : KvStore → Bytes → List Bytes → ℤ → Answer ℕ × KvStore
hdel kv key fields now =
    modify hash_kind kv key now (λ m. (done (delete_fields fields m).0, (delete_fields fields m).1))

unfoldable pub hgetall : KvStore → Bytes → ℤ → Answer (Dict Bytes)
hgetall kv key now = inspect hash_kind kv key now (done []) (λ m. done m)

unfoldable pub hkeys : KvStore → Bytes → ℤ → Answer (List Bytes)
hkeys kv key now =
    inspect hash_kind kv key now (done []) (λ m. done (map (λ (b : Bytes × Bytes). b.0) m))

unfoldable pub hvals : KvStore → Bytes → ℤ → Answer (List Bytes)
hvals kv key now =
    inspect hash_kind kv key now (done []) (λ m. done (map (λ (b : Bytes × Bytes). b.1) m))

unfoldable pub hlen : KvStore → Bytes → ℤ → Answer ℕ
hlen kv key now = inspect hash_kind kv key now (done 0) (λ m. done (length m))

unfoldable pub hexists : KvStore → Bytes → Bytes → ℤ → Answer Bool
hexists kv key field now =
    inspect hash_kind kv key now (done false) (λ m. done (is_some (lookup field m)))

unfoldable pub hincrby : KvStore → Bytes → Bytes → ℤ → ℤ → Answer ℤ × KvStore
unfolding add_to_field
hincrby kv key field delta now = modify hash_kind kv key now (add_to_field field delta)
