-- ===== src/Query/Stores/Reads.antt =====
-- The handlers of the commands that the registry marks as reads leave the store alone.
use dbx_database_extreme.Base.{
  ℕ, ◌≡◌, refl, sym, subst, eqb_sound, inl, inr, Bool, true, false, not, Bytes, some, List, [], ◌∷◌,
  Dict, lookup, eqb, ltb, ℤ, if◌then◌else◌, Bool-cases,
}
use dbx_database_extreme.Engine.Strings.SetArgs.{to_upper}
use dbx_database_extreme.Engine.Typed.{Answer}
use dbx_database_extreme.Persistence.Wal.Encode.{WalEffect}
use dbx_database_extreme.Query.Command.{
  Command, num_args, normalized, lookup_info, registry, registered, passes,
}
use dbx_database_extreme.Query.Verb.{
  Verb, on_del, on_exists, on_expire, on_ttl, on_persist, on_type, on_rename, on_get, on_set,
  on_setex, on_mget, on_mset, on_incr, on_decr, on_incrby, on_decrby, on_append, on_strlen,
  on_setnx, on_getset, on_keys, on_scan, on_dbsize, on_other, verbs,
}
use dbx_database_extreme.Query.Reply.{Frame}
use dbx_database_extreme.Query.Executor.{Executor, Log, Outcome}
use dbx_database_extreme.Query.Dispatch.{answered, replied, wrong_args, dispatch_verb}
use dbx_database_extreme.Query.Crash.Replies.{answered-kv}
use dbx_database_extreme.Query.Stores.{
  StoreVerb, on_getrange, on_hset, on_hmset, on_hget, on_hmget, on_hdel, on_hgetall, on_hkeys,
  on_hvals, on_hlen, on_hexists, on_hincrby, on_lpush, on_rpush, on_lpop, on_rpop, on_lrange,
  on_llen, on_lindex, on_sadd, on_srem, on_smembers, on_sismember, on_scard, on_spop,
  dispatch_store, dispatch_stores, store_verbs,
}

-- The handlers that only read.
abbrev pub reads : Verb → Bool
reads v = elim v [
  | on_exists ↦ true
  | on_ttl ↦ true
  | on_type ↦ true
  | on_get ↦ true
  | on_mget ↦ true
  | on_strlen ↦ true
  | on_keys ↦ true
  | on_scan ↦ true
  | on_dbsize ↦ true
  | _ ↦ false
]

abbrev pub reads_store : StoreVerb → Bool
reads_store v = elim v [
  | on_getrange ↦ true
  | on_hget ↦ true
  | on_hmget ↦ true
  | on_hgetall ↦ true
  | on_hkeys ↦ true
  | on_hvals ↦ true
  | on_hlen ↦ true
  | on_hexists ↦ true
  | on_lrange ↦ true
  | on_llen ↦ true
  | on_lindex ↦ true
  | on_smembers ↦ true
  | on_sismember ↦ true
  | on_scard ↦ true
  | _ ↦ false
]

-- The registry marks as reads the names of the handlers that read, and no others.
abbrev pub agrees : {V : Type 0} → (V → Bool) → Dict V → Bool
agrees test [] = true
agrees test ((name, v) ∷ m) =
    let rest = agrees test m in
    if (if registered (λ i. i.read_only) name then test v else not (test v)) then rest else false

pub verbs-agrees : agrees reads verbs ≡ true
unfolding verbs registered passes lookup_info registry lookup eqb to_upper
verbs-agrees = refl

pub store_verbs-agrees : agrees reads_store store_verbs ≡ true
unfolding store_verbs registered passes lookup_info registry lookup eqb to_upper
store_verbs-agrees = refl

pub agrees-lookup :
    {V : Type 0} (test : V → Bool) (m : Dict V) (name : Bytes) (v : V)
    → agrees test m ≡ true
    → lookup name m ≡ some v
    → registered (λ i. i.read_only) name ≡ true
    → test v ≡ true
unfolding lookup
agrees-lookup test [] name v a h r = absurd (cc)
agrees-lookup test ((k, w) ∷ m) name v a h r =
    elim (Bool-cases (if registered (λ i. i.read_only) k then test w else not (test w))) [
      | inl good ↦ elim (Bool-cases (eqb k name)) [
        | inl e ↦
            let here : some w ≡ some v = rw e at h in
            let same : w ≡ v = cc in
            let marked : registered (λ i. i.read_only) k ≡ true =
              subst (λ x. registered (λ i. i.read_only) x ≡ true) (sym (eqb_sound k name e)) r in
            subst (λ x. test x ≡ true) same (rw marked at good)
        | inr e ↦ agrees-lookup test m name v (rw good at a) (rw e at h) r
      ]
      | inr bad ↦ absurd (let b = rw bad at a in cc)
    ]

module _ (accepts : Log → List WalEffect → Bool) (shuffle : List Bytes → List Bytes)
    (rest : Executor → Command → (ℕ → ℤ) → Outcome) (e : Executor) (cmd : Command)
    (clock : ℕ → ℤ) where
  -- The store is left as it is.
  abbrev pub IsSame : Outcome → Type 0
  IsSame o = o.1.kv ≡ e.kv

  guarded-IsSame :
      {B : Type 0} (b : Bool) (name : Bytes) (a : Answer B) (f : B → List Frame)
      → IsSame (if b then wrong_args e name else answered e a f)
  unfolding wrong_args
  guarded-IsSame true name a f = refl
  guarded-IsSame false name a f = answered-kv e a f

  replied-IsSame :
      (b : Bool) (name : Bytes) (fs : List Frame)
      → IsSame (if b then wrong_args e name else replied e fs)
  unfolding wrong_args replied
  replied-IsSame true name fs = refl
  replied-IsSame false name fs = refl

  pub verb-IsSame :
      (v : Verb)
      → reads v ≡ true
      → IsSame (dispatch_verb accepts (dispatch_stores shuffle rest) v e cmd clock)
  unfolding dispatch_verb replied
  verb-IsSame on_exists h = replied-IsSame (ltb (num_args cmd) 1) (normalized cmd) _
  verb-IsSame on_ttl h = replied-IsSame (ltb (num_args cmd) 1) (normalized cmd) _
  verb-IsSame on_type h = refl
  verb-IsSame on_get h = guarded-IsSame (ltb (num_args cmd) 1) (normalized cmd) _ _
  verb-IsSame on_mget h = answered-kv e _ _
  verb-IsSame on_strlen h = answered-kv e _ _
  verb-IsSame on_keys h = refl
  verb-IsSame on_scan h = refl
  verb-IsSame on_dbsize h = refl
  verb-IsSame on_del h = absurd (cc)
  verb-IsSame on_expire h = absurd (cc)
  verb-IsSame on_persist h = absurd (cc)
  verb-IsSame on_rename h = absurd (cc)
  verb-IsSame on_set h = absurd (cc)
  verb-IsSame on_setex h = absurd (cc)
  verb-IsSame on_mset h = absurd (cc)
  verb-IsSame on_incr h = absurd (cc)
  verb-IsSame on_decr h = absurd (cc)
  verb-IsSame on_incrby h = absurd (cc)
  verb-IsSame on_decrby h = absurd (cc)
  verb-IsSame on_append h = absurd (cc)
  verb-IsSame on_setnx h = absurd (cc)
  verb-IsSame on_getset h = absurd (cc)
  verb-IsSame on_other h = absurd (cc)

  pub store_verb-IsSame :
      (v : StoreVerb) → reads_store v ≡ true → IsSame (dispatch_store shuffle v e cmd clock)
  unfolding dispatch_store
  store_verb-IsSame on_getrange h = guarded-IsSame (ltb (num_args cmd) 3) (normalized cmd) _ _
  store_verb-IsSame on_hget h = guarded-IsSame (ltb (num_args cmd) 2) (normalized cmd) _ _
  store_verb-IsSame on_hmget h = guarded-IsSame (ltb (num_args cmd) 2) (normalized cmd) _ _
  store_verb-IsSame on_hgetall h = answered-kv e _ _
  store_verb-IsSame on_hkeys h = answered-kv e _ _
  store_verb-IsSame on_hvals h = answered-kv e _ _
  store_verb-IsSame on_hlen h = answered-kv e _ _
  store_verb-IsSame on_hexists h = answered-kv e _ _
  store_verb-IsSame on_lrange h = guarded-IsSame (ltb (num_args cmd) 3) (normalized cmd) _ _
  store_verb-IsSame on_llen h = answered-kv e _ _
  store_verb-IsSame on_lindex h = guarded-IsSame (ltb (num_args cmd) 2) (normalized cmd) _ _
  store_verb-IsSame on_smembers h = answered-kv e _ _
  store_verb-IsSame on_sismember h = answered-kv e _ _
  store_verb-IsSame on_scard h = answered-kv e _ _
  store_verb-IsSame on_hset h = absurd (cc)
  store_verb-IsSame on_hmset h = absurd (cc)
  store_verb-IsSame on_hdel h = absurd (cc)
  store_verb-IsSame on_hincrby h = absurd (cc)
  store_verb-IsSame on_lpush h = absurd (cc)
  store_verb-IsSame on_rpush h = absurd (cc)
  store_verb-IsSame on_lpop h = absurd (cc)
  store_verb-IsSame on_rpop h = absurd (cc)
  store_verb-IsSame on_sadd h = absurd (cc)
  store_verb-IsSame on_srem h = absurd (cc)
  store_verb-IsSame on_spop h = absurd (cc)
