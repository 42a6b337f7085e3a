-- ===== src/Query/Registered.antt =====
-- The commands that are prepared and those that the registry marks as durable.
use dbx_database_extreme.Base.{
  ℕ, ◌≡◌, refl, Bool, true, false, ◌⊎◌, inl, inr, Bytes, Option, none, some, List, [], ◌∷◌, All,
  Dict, lookup, eqb, eqb_sound, Bool-cases, Option-cases, ℤ, subst, sym, ap, ◌∙◌,
}
use dbx_database_extreme.Engine.Kv.{KvStore}
use dbx_database_extreme.Engine.Strings.SetArgs.{to_upper}
use dbx_database_extreme.Persistence.Wal.Encode.{WalEffect}
use dbx_database_extreme.Query.Command.{
  Command, CommandInfo, normalized, registered, lookup_info, passes, registry,
}
use dbx_database_extreme.Query.Verb.{
  Verb, on_del, on_exists, on_expire, on_ttl, on_persist, on_type, on_rename, on_get, on_set,
  on_setex, on_mget, on_mset, on_incr, on_decr, on_incrby, on_decrby, on_append, on_strlen,
  on_setnx, on_getset, on_keys, on_scan, on_dbsize, on_other, verb_of, verbs, or_other,
}
use dbx_database_extreme.Query.Effects.{prepare_verb}

-- A name in a table whose entries all have a property.
pub lookup-All {ℓ} :
    {V : Type ℓ} (P : Bytes → V → Type 0) (m : Dict V) (k : Bytes) (v : V)
    → All (λ (p : Bytes × V). P p.0 p.1) m
    → lookup k m ≡ some v
    → P k v
unfolding lookup
lookup-All P [] k v a h = absurd (cc)
lookup-All P ((j, w) ∷ m) k v a h = elim (Bool-cases (eqb j k)) [
  | inl e ↦
      let same : some w ≡ some v = rw e at h in
      let value : w ≡ v = cc in subst (λ x. P k x) value (subst (λ x. P x w) (eqb_sound j k e) a.0)
  | inr e ↦ lookup-All P m k v a.1 (rw e at h)
]

-- The verbs with a case in `prepareDurableEffects`.
abbrev is_prepared : Verb → Bool
is_prepared v = elim v [
  | on_set ↦ true
  | on_setex ↦ true
  | on_setnx ↦ true
  | on_getset ↦ true
  | on_mset ↦ true
  | on_del ↦ true
  | on_expire ↦ true
  | on_persist ↦ true
  | on_rename ↦ true
  | on_incr ↦ true
  | on_decr ↦ true
  | on_incrby ↦ true
  | on_decrby ↦ true
  | on_append ↦ true
  | _ ↦ false
]

abbrev pub IsDurable : Bytes → Type 0
IsDurable name =
    (registered (λ i. i.durable_v1) name ≡ true) × (registered (λ i. i.read_only) name ≡ false)

prepared-is :
    (v : Verb) (kv : KvStore) (cmd : Command) (clock : ℕ → ℤ) (es : List WalEffect)
    → prepare_verb v kv cmd clock ≡ some es
    → is_prepared v ≡ true
unfolding prepare_verb
prepared-is on_set kv cmd clock es h = refl
prepared-is on_setex kv cmd clock es h = refl
prepared-is on_setnx kv cmd clock es h = refl
prepared-is on_getset kv cmd clock es h = refl
prepared-is on_mset kv cmd clock es h = refl
prepared-is on_del kv cmd clock es h = refl
prepared-is on_expire kv cmd clock es h = refl
prepared-is on_persist kv cmd clock es h = refl
prepared-is on_rename kv cmd clock es h = refl
prepared-is on_incr kv cmd clock es h = refl
prepared-is on_decr kv cmd clock es h = refl
prepared-is on_incrby kv cmd clock es h = refl
prepared-is on_decrby kv cmd clock es h = refl
prepared-is on_append kv cmd clock es h = refl
prepared-is on_exists kv cmd clock es h = absurd (cc)
prepared-is on_ttl kv cmd clock es h = absurd (cc)
prepared-is on_type kv cmd clock es h = absurd (cc)
prepared-is on_get kv cmd clock es h = absurd (cc)
prepared-is on_mget kv cmd clock es h = absurd (cc)
prepared-is on_strlen kv cmd clock es h = absurd (cc)
prepared-is on_keys kv cmd clock es h = absurd (cc)
prepared-is on_scan kv cmd clock es h = absurd (cc)
prepared-is on_dbsize kv cmd clock es h = absurd (cc)
prepared-is on_other kv cmd clock es h = absurd (cc)

abbrev IsMarked : Bytes → Verb → Type 0
IsMarked name v = (is_prepared v ≡ false) ⊎ IsDurable name

verbs-IsMarked : All (λ (p : Bytes × Verb). IsMarked p.0 p.1) verbs
unfolding verbs registered passes lookup_info registry lookup eqb to_upper
verbs-IsMarked = (
  inr (refl, refl),
  (
    inl refl,
    (
      inr (refl, refl),
      (
        inl refl,
        (
          inr (refl, refl),
          (
            inl refl,
            (
              inr (refl, refl),
              (
                inl refl,
                (
                  inr (refl, refl),
                  (
                    inr (refl, refl),
                    (
                      inl refl,
                      (
                        inr (refl, refl),
                        (
                          inr (refl, refl),
                          (
                            inr (refl, refl),
                            (
                              inr (refl, refl),
                              (
                                inr (refl, refl),
                                (
                                  inr (refl, refl),
                                  (
                                    inl refl,
                                    (
                                      inr (refl, refl),
                                      (inr (refl, refl), (inl refl, (inl refl, (inl refl, tt)))),
                                    ),
                                  ),
                                ),
                              ),
                            ),
                          ),
                        ),
                      ),
                    ),
                  ),
                ),
              ),
            ),
          ),
        ),
      ),
    ),
  ),
)

marked :
    (name : Bytes) (o : Option Verb)
    → ((v : Verb) → o ≡ some v → IsMarked name v)
    → is_prepared (or_other o) ≡ true
    → IsDurable name
unfolding or_other
marked name none f h = absurd (cc)
marked name (some v) f h = elim (f v refl) [ inl n ↦ absurd (cc) | inr d ↦ d ]

-- A command for which `prepareDurableEffects` prepares effects is registered as durable and not as a read.
pub prepare-IsDurable :
    (cmd : Command) (kv : KvStore) (clock : ℕ → ℤ) (es : List WalEffect)
    → prepare_verb (verb_of cmd) kv cmd clock ≡ some es
    → IsDurable (normalized cmd)
unfolding verb_of
prepare-IsDurable cmd kv clock es h =
    marked (normalized cmd) (lookup (normalized cmd) verbs)
      (λ v q. lookup-All IsMarked verbs (normalized cmd) v verbs-IsMarked q)
      (prepared-is (or_other (lookup (normalized cmd) verbs)) kv cmd clock es h)

-- A name with such an entry has one.
pub IsDurable-lookup_info :
    (name : Bytes)
    → IsDurable name
    → (i : CommandInfo) × (lookup_info name ≡ some i)
      × (i.durable_v1 ≡ true)
      × (i.read_only ≡ false)
unfolding registered passes
IsDurable-lookup_info name (durable, writes) = elim (Option-cases (lookup_info name)) [
  | inl e ↦ let no : false ≡ true = sym (ap (passes (λ i. i.durable_v1)) e) ∙ durable in absurd (cc)
  | inr (i, e) ↦ (
    i,
    e,
    sym (ap (passes (λ i. i.durable_v1)) e) ∙ durable,
    sym (ap (passes (λ i. i.read_only)) e) ∙ writes,
  )
]
