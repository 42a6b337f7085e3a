-- ===== src/Security/Acl/Prepared.antt =====
-- The effects that are prepared for a command are on keys that `AffectedKeys` names.
use dbx_database_extreme.Base.{
  ℕ, suc, ◌≡◌, refl, sym, subst, Bool, true, false, ◌||◌, not, Bytes, some, List, [], ◌∷◌, All, ◌⊎◌,
  inl, inr, eqb_refl, leb, ltb, length, get_or, ℤ, pos, negsuc, arith, if◌then◌else◌, drop,
}
use dbx_database_extreme.Util.Decimal.{parse_int}
use dbx_database_extreme.Engine.Kv.{KvStore, exists_key, get}
use dbx_database_extreme.Engine.Kv.Expiry.{contains}
use dbx_database_extreme.Engine.Strings.SetArgs.{parse_set_args}
use dbx_database_extreme.Persistence.Wal.Encode.{WalEffect}
use dbx_database_extreme.Query.Command.{Command, arg, num_args, affected_keys, evens}
use dbx_database_extreme.Query.Verb.{
  Verb, on_del, on_exists, on_expire, on_ttl, on_persist, on_type, on_rename, on_get, on_set,
  on_setex, on_mget, on_mset, on_incr, on_decr, on_incrby, on_decrby, on_append, on_strlen,
  on_setnx, on_getset, on_keys, on_scan, on_dbsize, on_other, verb_of,
}
use dbx_database_extreme.Query.Effects.{
  StringState, absent, foreign, holding, put, deletion, put_pairs, delete_existing, rename_effects,
  negated, prepare_verb, string_state, is_even,
}
use dbx_database_extreme.Query.Effects.Keyed.{
  IsOn, if-All, parsed_set_effect-IsOn, setex_effect-IsOn, setnx_effect-IsOn, getset_effect-IsOn,
  append_effect-IsOn, expire_effect-IsOn, persist_effect-IsOn, incr_effect-IsOn,
}
use dbx_database_extreme.Query.Crash.Commands.{effects_of}
use dbx_database_extreme.Security.Acl.Keys.{first_key, NamesKeys, verb_of-NamesKeys}

-- The effect is on one of the keys, or on the empty key.
abbrev pub IsAmong : List Bytes → WalEffect → Type 0
IsAmong ks e = (e.key ≡ []) ⊎ (contains ks e.key ≡ true)

contains_here : (k : Bytes) (ks : List Bytes) → contains (k ∷ ks) k ≡ true
contains_here k ks = rw (eqb_refl k) refl

contains_behind :
    (k j : Bytes) (ks : List Bytes) → contains ks j ≡ true → contains (k ∷ ks) j ≡ true
contains_behind k j ks h = ground (arith, h)

first_of :
    (args : List Bytes)
    → (get_or args 0 [] ≡ [])
      ⊎ (contains (if leb 1 (length args) then get_or args 0 [] ∷ [] else []) (get_or args 0 [])
          ≡ true)
first_of [] = inl refl
first_of (k ∷ args) =
    inr (rw (let e : leb 1 (suc (length args)) ≡ true = ground arith in e) (contains_here k []))

-- The first argument is the first key, or it is empty.
pub first_key-arg :
    (cmd : Command) → (arg cmd 0 ≡ []) ⊎ (contains (first_key cmd) (arg cmd 0) ≡ true)
unfolding arg num_args
first_key-arg cmd = first_of cmd.args

on-IsAmong :
    (cmd : Command) (es : List WalEffect) → IsOn (arg cmd 0) es → All (IsAmong (first_key cmd)) es
on-IsAmong cmd [] h = tt
on-IsAmong cmd (e ∷ es) h = (
  subst (λ k. (k ≡ []) ⊎ (contains (first_key cmd) k ≡ true)) (sym h.0) (first_key-arg cmd),
  on-IsAmong cmd es h.1,
)

more-IsAmong :
    (k : Bytes) (ks : List Bytes) (es : List WalEffect)
    → All (IsAmong ks) es
    → All (IsAmong (k ∷ ks)) es
more-IsAmong k ks [] h = tt
more-IsAmong k ks (e ∷ es) h = (
  elim h.0 [ inl n ↦ inl n | inr m ↦ inr (contains_behind k e.key ks m) ],
  more-IsAmong k ks es h.1,
)

put_pairs-IsAmong : (args : List Bytes) → All (IsAmong (evens args)) (put_pairs args)
unfolding put_pairs put evens
put_pairs-IsAmong [] = tt
put_pairs-IsAmong (k ∷ []) = tt
put_pairs-IsAmong (k ∷ v ∷ args) = (
  inr (contains_here k (evens args)),
  more-IsAmong k (evens args) (put_pairs args) (put_pairs-IsAmong args),
)

delete_existing-IsAmong :
    (kv : KvStore) (keys : List Bytes) (clock : ℕ → ℤ) (n : ℕ)
    → All (IsAmong keys) (delete_existing kv keys clock n)
unfolding delete_existing deletion
delete_existing-IsAmong kv [] clock n = tt
delete_existing-IsAmong kv (k ∷ keys) clock n =
    let rest =
      more-IsAmong k keys (delete_existing kv keys clock (suc n))
        (delete_existing-IsAmong kv keys clock (suc n)) in
    if-All (IsAmong (k ∷ keys)) (exists_key kv k (clock n)) _ _ (inr (contains_here k keys), rest)
      rest

rename_effects-IsAmong :
    (k j : Bytes) (s : StringState) → All (IsAmong (k ∷ j ∷ [])) (rename_effects k j s)
unfolding rename_effects put deletion
rename_effects-IsAmong k j absent = tt
rename_effects-IsAmong k j foreign = tt
rename_effects-IsAmong k j (holding b d) =
    (inr (contains_behind k j (j ∷ []) (contains_here j [])), (inr (contains_here k (j ∷ [])), tt))

module _ (kv : KvStore) (cmd : Command) (clock : ℕ → ℤ) (ks : List Bytes) where
  one_key : (es : List WalEffect) → ks ≡ first_key cmd → IsOn (arg cmd 0) es → All (IsAmong ks) es
  one_key es h a = subst (λ x. All (IsAmong x) es) (sym h) (on-IsAmong cmd es a)

  guarded :
      (b : Bool) (es : List WalEffect)
      → ks ≡ first_key cmd
      → IsOn (arg cmd 0) es
      → All (IsAmong ks) (if b then [] else es)
  guarded b es h a = if-All (IsAmong ks) b [] es tt (one_key es h a)

  renamed :
      (b : Bool)
      → (leb 2 (num_args cmd) ≡ true → ks ≡ arg cmd 0 ∷ arg cmd 1 ∷ [])
      → ltb (num_args cmd) 2 ≡ b
      → (s : StringState)
      → All (IsAmong ks) (if b then [] else rename_effects (arg cmd 0) (arg cmd 1) s)
  renamed true h e s = tt
  renamed false h e s =
      subst (λ x. All (IsAmong x) (rename_effects (arg cmd 0) (arg cmd 1) s))
        (sym (h (ground (arith, e)))) (rename_effects-IsAmong (arg cmd 0) (arg cmd 1) s)

  -- Every effect that is prepared for a command is on a key that the command names, or on the empty key.
  pub prepare-IsAmong :
      (v : Verb) → NamesKeys v cmd ks → All (IsAmong ks) (effects_of (prepare_verb v kv cmd clock))
  unfolding prepare_verb effects_of
  prepare-IsAmong on_set h = guarded (ltb (num_args cmd) 2) _ h (
      parsed_set_effect-IsOn (arg cmd 0) (string_state kv (arg cmd 0) (clock 1))
        (parse_set_args (drop 1 cmd.args)) (clock 0))
  prepare-IsAmong on_setex h =
      guarded (ltb (num_args cmd) 3) _ h
        (setex_effect-IsOn (arg cmd 0) (arg cmd 2) (parse_int (arg cmd 1)) (clock 0))
  prepare-IsAmong on_setnx h =
      guarded (ltb (num_args cmd) 2) _ h
        (setnx_effect-IsOn (arg cmd 0) (arg cmd 1) (string_state kv (arg cmd 0) (clock 1)))
  prepare-IsAmong on_getset h =
      guarded (ltb (num_args cmd) 2) _ h
        (getset_effect-IsOn (arg cmd 0) (arg cmd 1) (string_state kv (arg cmd 0) (clock 1)))
  prepare-IsAmong on_append h =
      guarded (ltb (num_args cmd) 2) _ h
        (append_effect-IsOn (arg cmd 0) (arg cmd 1) (string_state kv (arg cmd 0) (clock 1)))
  prepare-IsAmong on_expire h = guarded (ltb (num_args cmd) 2) _ h (
      expire_effect-IsOn (arg cmd 0) (parse_int (arg cmd 1)) (exists_key kv (arg cmd 0) (clock 1))
        (clock 0))
  prepare-IsAmong on_persist h =
      one_key _ h (persist_effect-IsOn (arg cmd 0) (get kv (arg cmd 0) (clock 1)))
  prepare-IsAmong on_incr h =
      one_key _ h
        (incr_effect-IsOn (arg cmd 0) (string_state kv (arg cmd 0) (clock 1)) (some (pos 1)))
  prepare-IsAmong on_decr h =
      one_key _ h
        (incr_effect-IsOn (arg cmd 0) (string_state kv (arg cmd 0) (clock 1)) (some (negsuc 0)))
  prepare-IsAmong on_incrby h =
      one_key _ h (
        incr_effect-IsOn (arg cmd 0) (string_state kv (arg cmd 0) (clock 1))
          (parse_int (arg cmd 1)))
  prepare-IsAmong on_decrby h = one_key _ h (
      incr_effect-IsOn (arg cmd 0) (string_state kv (arg cmd 0) (clock 1))
        (negated (parse_int (arg cmd 1))))
  prepare-IsAmong on_del h =
      subst (λ x. All (IsAmong x) (delete_existing kv cmd.args clock 1)) (sym h)
        (delete_existing-IsAmong kv cmd.args clock 1)
  prepare-IsAmong on_mset h =
      if-All (IsAmong ks) (ltb (num_args cmd) 2 || not (is_even (num_args cmd))) [] _ tt
        (subst (λ x. All (IsAmong x) (put_pairs cmd.args)) (sym h) (put_pairs-IsAmong cmd.args))
  prepare-IsAmong on_rename h =
      renamed (ltb (num_args cmd) 2) h refl (string_state kv (arg cmd 0) (clock 1))
  prepare-IsAmong on_exists h = tt
  prepare-IsAmong on_ttl h = tt
  prepare-IsAmong on_type h = tt
  prepare-IsAmong on_get h = tt
  prepare-IsAmong on_mget h = tt
  prepare-IsAmong on_strlen h = tt
  prepare-IsAmong on_keys h = tt
  prepare-IsAmong on_scan h = tt
  prepare-IsAmong on_dbsize h = tt
  prepare-IsAmong on_other h = tt

-- Every effect that is prepared for a command is on a key that `AffectedKeys` names, or on the empty key.
pub prepare-affected_keys :
    (kv : KvStore) (cmd : Command) (clock : ℕ → ℤ)
    → All (IsAmong (affected_keys cmd)) (effects_of (prepare_verb (verb_of cmd) kv cmd clock))
prepare-affected_keys kv cmd clock =
    prepare-IsAmong kv cmd clock (affected_keys cmd) (verb_of cmd) (verb_of-NamesKeys cmd)
