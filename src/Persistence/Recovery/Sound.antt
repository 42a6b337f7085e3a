-- ===== src/Persistence/Recovery/Sound.antt =====
-- What a replay leaves at a key.
use dbx_database_extreme.Base.{
  ℕ, ◌+◌, ◌≡◌, refl, ◌∙◌, ap, Bytes, Option, none, some, List, [], ◌∷◌, All, ◌⊎◌, inl, inr, eqb,
  is_some, ◌==◌, ℤ, pos, if◌then◌else◌, Bool-cases,
}
use dbx_database_extreme.Engine.Entry.{Entry, Value, bytes_value, type_string}
use dbx_database_extreme.Engine.Kv.{KvStore, find, set_key, delete_keys, written_entry}
use dbx_database_extreme.Engine.Kv.Shards.{IsSharded, remove-IsSharded}
use dbx_database_extreme.Engine.Kv.Find.{find-set_key, set_key-IsSharded}
use dbx_database_extreme.Engine.Kv.Expiry.{find-delete_keys}
use dbx_database_extreme.Persistence.Wal.Encode.{WalEffect, WalRecord, record_set, record_delete}
use dbx_database_extreme.Persistence.Recovery.{
  install, recover_set, apply_recovered_effect, pending, after_effect, replay_effects, replay,
}

-- An effect that sets a key for ever, or deletes it.
abbrev pub IsPlain : WalEffect → Type 0
IsPlain effect =
    ((effect.typ ≡ record_set) × (effect.expires_at ≡ pos 0)) ⊎ (effect.typ ≡ record_delete)

abbrev pub value_of : Option Entry → Option Value
value_of none = none
value_of (some e) = some e.value

-- The value of a key behind the effects, if it was `before` in front of them.
abbrev pub last_value : List WalEffect → Bytes → Option Value → Option Value
last_value [] key before = before
last_value (effect ∷ effects) key before = last_value effects key (
    if eqb effect.key key
    then (if effect.typ == record_set then some (bytes_value effect.value) else none)
    else before)

pub delete_keys-IsSharded :
    (kv : KvStore) (key : Bytes) → IsSharded kv → IsSharded (delete_keys kv (key ∷ [])).1
unfolding delete_keys
delete_keys-IsSharded kv key h = elim (Bool-cases (is_some (find kv key))) [
  | inl e ↦ rw e (remove-IsSharded kv h key)
  | inr e ↦ rw e h
]

module _ (kv : KvStore) (h : IsSharded kv) (effect : WalEffect) (now now' now'' : ℤ) where
  -- One effect.
  apply_recovered_effect-plain :
      (key : Bytes)
      → IsPlain effect
      → (kv' : KvStore) × (apply_recovered_effect kv effect now now' now'' ≡ some kv')
        × IsSharded kv'
        × (value_of (find kv' key) ≡ (
            if eqb effect.key key
            then (if effect.typ == record_set then some (bytes_value effect.value) else none)
            else value_of (find kv key)))
  unfolding apply_recovered_effect recover_set install
  apply_recovered_effect-plain key (inl (t, d)) = (
    set_key kv effect.key (bytes_value effect.value) type_string (pos 0) now',
    rw t (rw d),
    set_key-IsSharded kv h effect.key (bytes_value effect.value) type_string (pos 0) now',
    rw t (
        rw (find-set_key kv h effect.key (bytes_value effect.value) type_string (pos 0) now' key)
          (elim (Bool-cases (eqb effect.key key)) [
            | inl e ↦ rw e (unfold written_entry in refl)
            | inr e ↦ rw e
          ])),
  )
  apply_recovered_effect-plain key (inr t) = (
    (delete_keys kv (effect.key ∷ [])).1,
    rw t,
    delete_keys-IsSharded kv effect.key h,
    rw t (
        rw (find-delete_keys kv (effect.key ∷ []) key h)
          (elim (Bool-cases (eqb effect.key key)) [ inl e ↦ rw e | inr e ↦ rw e ])),
  )

replay_effects-plain :
    (clock : ℕ → ℤ) (n : ℕ) (kv : KvStore) (effects : List WalEffect) (key : Bytes)
    → IsSharded kv
    → All IsPlain effects
    → (kv' : KvStore) × (replay_effects clock n kv effects ≡ some kv')
      × (value_of (find kv' key) ≡ last_value effects key (value_of (find kv key)))
unfolding replay_effects
replay_effects-plain clock n kv [] key h p = (kv, refl, refl)
replay_effects-plain clock n kv (effect ∷ effects) key h p =
    let (mid, e, g, v) =
      apply_recovered_effect-plain kv h effect (clock n) (clock (n + 1)) (clock (n + 2)) key
        (p.0) in
    let (last, f, w) = replay_effects-plain clock (n + 3) mid effects key g (p.1) in
    (last, rw (e, after_effect) f, w ∙ ap (last_value effects key) v)

-- Recovery of records that set keys for ever or delete them succeeds, and leaves each key with the
-- value of the last effect on it behind the checkpoint.
pub replay-last_value :
    (clock : ℕ → ℤ) (kv : KvStore) (checkpoint : ℕ) (records : List WalRecord) (key : Bytes)
    → IsSharded kv
    → All IsPlain (pending checkpoint records)
    → (kv' : KvStore) × (replay clock kv checkpoint records ≡ some kv')
      × (value_of (find kv' key)
          ≡ last_value (pending checkpoint records) key (value_of (find kv key)))
unfolding replay
replay-last_value clock kv checkpoint records key h p =
    replay_effects-plain clock 0 kv (pending checkpoint records) key h p
