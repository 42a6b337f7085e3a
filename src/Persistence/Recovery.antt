-- ===== src/Persistence/Recovery.antt =====
-- internal/persistence/recovery.go: replaying the records of the log behind a checkpoint, for a server
-- without a vector store (`vecStore == nil`), which passes over the effects on vectors.
pub mod Sound
use dbx_database_extreme.Base.{
  ℕ, zero, suc, ◌+◌, ◌/◌, Bool, ◌&&◌, Bytes, Option, none, some, List, [], ◌∷◌, ◌++◌, leb, ltb, max,
  ◌==◌, ℤ, pos, ◌-ℤ◌, ltb_ℤ, leb_ℤ, pos_part, wrap64, if◌then◌else◌,
}
use dbx_database_extreme.Engine.Entry.{bytes_value, type_string}
use dbx_database_extreme.Engine.Kv.{KvStore, second, set_key, delete_keys, persist, expire}
use dbx_database_extreme.Persistence.Wal.Encode.{
  WalEffect, WalRecord, record_set, record_delete, record_expire, expand_effects,
}

abbrev pub record_delete_index : ℕ
record_delete_index = 7

unfoldable pub install : KvStore → WalEffect → ℤ → ℤ → KvStore
install kv effect remaining now =
    set_key kv effect.key (bytes_value effect.value) type_string remaining now

-- The arguments behind the effect are the readings of the clock, in order.
unfoldable pub recover_set : KvStore → WalEffect → ℤ → ℤ → KvStore
unfolding install
recover_set kv effect now now' =
    if ltb_ℤ (pos 0) effect.expires_at
    then (let remaining = wrap64 (effect.expires_at -ℤ now) in
        if leb_ℤ remaining (pos 0)
        then (delete_keys kv (effect.key ∷ [])).1
        else install kv effect remaining now')
    else install kv effect (pos 0) now'

-- Of what is left, whole seconds, and one at least.
unfoldable pub recover_expire : KvStore → WalEffect → ℤ → ℤ → ℤ → KvStore
recover_expire kv effect now now' now'' =
    if leb_ℤ effect.expires_at (pos 0)
    then (persist kv effect.key now).1
    else let remaining = wrap64 (effect.expires_at -ℤ now) in
      if leb_ℤ remaining (pos 0)
      then (delete_keys kv (effect.key ∷ [])).1
      else (expire kv effect.key (pos (max 1 (pos_part remaining / second))) now' now'').1

-- none: the type is not supported.
unfoldable pub apply_recovered_effect : KvStore → WalEffect → ℤ → ℤ → ℤ → Option KvStore
unfolding recover_set recover_expire
apply_recovered_effect kv effect now now' now'' =
    if effect.typ == record_set
    then some (recover_set kv effect now now')
    else if effect.typ == record_delete
    then some (delete_keys kv (effect.key ∷ [])).1
    else if effect.typ == record_expire
    then some (recover_expire kv effect now now' now'')
    else if effect.typ == record_delete_index
    then some (delete_keys kv (effect.key ∷ [])).1
    else if leb 4 effect.typ && leb effect.typ 11
    then some kv
    else none

-- The effects of the records behind the checkpoint, in order.
unfoldable pub pending : ℕ → List WalRecord → List WalEffect
pending checkpoint [] = []
pending checkpoint (rec ∷ records) =
    let rest = pending checkpoint records in
    if leb rec.sequence checkpoint then rest else expand_effects rec ++ rest

unfoldable pub after_effect : Option KvStore → (KvStore → Option KvStore) → Option KvStore
after_effect none f = none
after_effect (some kv) f = f kv

-- An effect reads the clock three times at most; `clock n` is the reading numbered n.
unfoldable pub replay_effects : (ℕ → ℤ) → ℕ → KvStore → List WalEffect → Option KvStore
unfolding apply_recovered_effect after_effect
replay_effects clock n kv [] = some kv
replay_effects clock n kv (effect ∷ effects) =
    after_effect (apply_recovered_effect kv effect (clock n) (clock (n + 1)) (clock (n + 2)))
      (λ kv'. replay_effects clock (n + 3) kv' effects)

unfoldable pub replay : (ℕ → ℤ) → KvStore → ℕ → List WalRecord → Option KvStore
unfolding replay_effects pending
replay clock kv checkpoint records = replay_effects clock 0 kv (pending checkpoint records)
