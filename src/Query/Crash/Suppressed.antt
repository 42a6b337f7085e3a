-- ===== src/Query/Crash/Suppressed.antt =====
-- With the log suppressed, no handler writes to it.
use dbx_database_extreme.Base.{
  ℕ, suc, ◌≡◌, refl, ap, Bool, true, false, Bytes, Option, none, some, List, [], ◌∷◌, inl, inr, map,
  length, ℤ, pos, negsuc, leb_ℤ, if◌then◌else◌, Bool-cases, Option-cases, ltb, not, ◌||◌, wrap64,
  scale,
}
use dbx_database_extreme.Util.Decimal.{parse_int}
use dbx_database_extreme.Engine.Kv.{KvStore, second, delete_keys, rename, expire}
use dbx_database_extreme.Engine.Typed.{Answer, done, failed, panicked}
use dbx_database_extreme.Engine.Strings.SetArgs.{SetArgs}
use dbx_database_extreme.Persistence.Wal.Encode.{WalEffect}
use dbx_database_extreme.Query.Command.{Command, arg, num_args}
use dbx_database_extreme.Query.Verb.{
  Verb, on_del, on_exists, on_expire, on_ttl, on_persist, on_type, on_rename, on_get, on_set,
  on_setex, on_mget, on_mset, on_incr, on_decr, on_incrby, on_decrby, on_append, on_strlen,
  on_setnx, on_getset, on_keys, on_scan, on_dbsize, on_other,
}
use dbx_database_extreme.Query.Effects.{put, deletion, expiry, negated, is_even}
use dbx_database_extreme.Query.Reply.{Frame}
use dbx_database_extreme.Query.Executor.{
  Executor, Log, Outcome, stamped, write_to, write_wal, write_wal_all, logged_reply,
}
use dbx_database_extreme.Query.Dispatch.{
  pairs_of, dispatch_verb, answered, replied, refuse, wrong_args, set_args_of, set_parsed,
  setex_parsed, set_done, del_done, expire_done, expire_parsed, with_kv, mset_handler,
  incr_parsed_by, milli,
}

-- The log and its switch are as they were.
abbrev pub IsQuiet : Executor → Executor → Type 0
IsQuiet e e' = (e'.wal ≡ e.wal) × (e'.suppress_wal ≡ true)

if-IsQuiet :
    (e : Executor) (b : Bool) (o o' : Outcome)
    → IsQuiet e o.1
    → IsQuiet e o'.1
    → IsQuiet e (if b then o else o').1
if-IsQuiet e true o o' h k = h
if-IsQuiet e false o o' h k = k

taken-IsQuiet :
    (e : Executor) (b : Bool) (p q : Bool × Executor)
    → b ≡ true
    → IsQuiet e p.1
    → IsQuiet e (if b then p else q).1
taken-IsQuiet e true p q t h = h
taken-IsQuiet e false p q t h = absurd (cc)

answered-IsQuiet :
    {B : Type 0} (e e' : Executor) (a : Answer B) (f : B → List Frame)
    → IsQuiet e e'
    → IsQuiet e (answered e' a f).1
unfolding answered
answered-IsQuiet e e' (done b) f h = h
answered-IsQuiet e e' (failed m) f h = h
answered-IsQuiet e e' panicked f h = h

module _ (accepts : Log → List WalEffect → Bool) where
  write_wal-IsQuiet :
      (e e' : Executor) (x : WalEffect) (now : ℤ)
      → IsQuiet e e'
      → IsQuiet e (write_wal accepts e' x now).1
  unfolding write_wal write_to
  write_wal-IsQuiet e e' x now h = elim (Option-cases e'.wal) [
    | inl a ↦ rw (ap (λ o. (write_to accepts e' o (stamped x now)).1) a) h
    | inr (log, a) ↦
        rw (ap (λ o. (write_to accepts e' o (stamped x now)).1) a)
          (taken-IsQuiet e e'.suppress_wal _ _ h.1 h)
  ]

  write_wal_all-IsQuiet :
      (e e' : Executor) (es : List WalEffect) (clock : ℕ → ℤ) (n : ℕ)
      → IsQuiet e e'
      → IsQuiet e (write_wal_all accepts e' es clock n).1
  unfolding write_wal_all
  write_wal_all-IsQuiet e e' [] clock n h = h
  write_wal_all-IsQuiet e e' (x ∷ es) clock n h =
      let left = write_wal accepts e' x (clock n) in
      let quiet = write_wal-IsQuiet e e' x (clock n) h in
      elim (Bool-cases left.0) [
        | inl a ↦ rw a (write_wal_all-IsQuiet e left.1 es clock (suc n) quiet)
        | inr a ↦ rw a quiet
      ]

  set_done-IsQuiet :
      (e : Executor) (key value : Bytes) (t stamp : ℤ) (r : Bool × KvStore)
      → e.suppress_wal ≡ true
      → IsQuiet e (set_done accepts e key value t stamp r).1
  unfolding set_done replied logged_reply
  set_done-IsQuiet e key value t stamp (true, kv) h =
      write_wal-IsQuiet e (with_kv e kv) (put key value (wrap64 (scale milli t))) stamp (refl, h)
  set_done-IsQuiet e key value t stamp (false, kv) h = (refl, h)

  set_parsed-IsQuiet :
      (e : Executor) (key : Bytes) (r : Answer SetArgs) (clock : ℕ → ℤ)
      → e.suppress_wal ≡ true
      → IsQuiet e (set_parsed accepts e key r clock).1
  unfolding set_parsed
  set_parsed-IsQuiet e key (done a) clock h = set_done-IsQuiet e key a.value a.ttl_sec (clock 3) _ h
  set_parsed-IsQuiet e key (failed m) clock h = (refl, h)
  set_parsed-IsQuiet e key panicked clock h = (refl, h)

  setex_parsed-IsQuiet :
      (e : Executor) (key value : Bytes) (o : Option ℤ) (clock : ℕ → ℤ)
      → e.suppress_wal ≡ true
      → IsQuiet e (setex_parsed accepts e key value o clock).1
  unfolding setex_parsed refuse
  setex_parsed-IsQuiet e key value none clock h = (refl, h)
  setex_parsed-IsQuiet e key value (some t) clock h =
      if-IsQuiet e (leb_ℤ t (pos 0)) _ _ (refl, h) (set_done-IsQuiet e key value t (clock 3) _ h)

  expire_parsed-IsQuiet :
      (e : Executor) (key : Bytes) (o : Option ℤ) (now now' stamp : ℤ)
      → e.suppress_wal ≡ true
      → IsQuiet e (expire_parsed accepts e key o now now' stamp).1
  unfolding expire_parsed expire_done refuse replied logged_reply
  expire_parsed-IsQuiet e key none now now' stamp h = (refl, h)
  expire_parsed-IsQuiet e key (some t) now now' stamp h =
      if-IsQuiet e (expire e.kv key t now now').0 _ _
        (write_wal-IsQuiet e (with_kv e (expire e.kv key t now now').1)
          (expiry key (wrap64 (scale second t))) stamp (refl, h))
        (refl, h)

  incr_parsed_by-IsQuiet :
      (e : Executor) (key : Bytes) (o : Option ℤ) (now : ℤ)
      → e.suppress_wal ≡ true
      → IsQuiet e (incr_parsed_by accepts e key o now).1
  unfolding incr_parsed_by refuse
  incr_parsed_by-IsQuiet e key none now h = (refl, h)
  incr_parsed_by-IsQuiet e key (some by) now h = answered-IsQuiet e _ _ _ (refl, h)

  module _ (other : Executor → Command → (ℕ → ℤ) → Outcome) where
    pub dispatch_verb-IsQuiet :
        (v : Verb) (e : Executor) (cmd : Command) (clock : ℕ → ℤ)
        → (v ≡ on_other → IsQuiet e (other e cmd clock).1)
        → e.suppress_wal ≡ true
        → IsQuiet e (dispatch_verb accepts other v e cmd clock).1
    unfolding dispatch_verb wrong_args replied refuse del_done mset_handler logged_reply
    dispatch_verb-IsQuiet on_del e cmd clock o h =
        if-IsQuiet e (ltb (num_args cmd) 1) _ _ (refl, h)
          (if-IsQuiet e (ltb 0 (delete_keys e.kv cmd.args).0) _ _
            (write_wal_all-IsQuiet e _ (map deletion cmd.args) clock 0 (refl, h)) (refl, h))
    dispatch_verb-IsQuiet on_exists e cmd clock o h =
        if-IsQuiet e (ltb (num_args cmd) 1) _ _ (refl, h) (refl, h)
    dispatch_verb-IsQuiet on_expire e cmd clock o h =
        if-IsQuiet e (ltb (num_args cmd) 2) _ _ (refl, h)
          (expire_parsed-IsQuiet e (arg cmd 0) (parse_int (arg cmd 1)) (clock 0) (clock 1) (clock 2)
            h)
    dispatch_verb-IsQuiet on_ttl e cmd clock o h =
        if-IsQuiet e (ltb (num_args cmd) 1) _ _ (refl, h) (refl, h)
    dispatch_verb-IsQuiet on_persist e cmd clock o h = (refl, h)
    dispatch_verb-IsQuiet on_type e cmd clock o h = (refl, h)
    dispatch_verb-IsQuiet on_rename e cmd clock o h =
        if-IsQuiet e (ltb (num_args cmd) 2) _ _ (refl, h)
          (if-IsQuiet e (rename e.kv (arg cmd 0) (arg cmd 1) (clock 0) (clock 1) (clock 2)).0 _ _
            (refl, h) (refl, h))
    dispatch_verb-IsQuiet on_get e cmd clock o h =
        if-IsQuiet e (ltb (num_args cmd) 1) _ _ (refl, h) (answered-IsQuiet e e _ _ (refl, h))
    dispatch_verb-IsQuiet on_set e cmd clock o h =
        if-IsQuiet e (ltb (num_args cmd) 2) _ _ (refl, h)
          (set_parsed-IsQuiet e (arg cmd 0) (set_args_of cmd) clock h)
    dispatch_verb-IsQuiet on_setex e cmd clock o h =
        if-IsQuiet e (ltb (num_args cmd) 3) _ _ (refl, h)
          (setex_parsed-IsQuiet e (arg cmd 0) (arg cmd 2) (parse_int (arg cmd 1)) clock h)
    dispatch_verb-IsQuiet on_mget e cmd clock o h = answered-IsQuiet e e _ _ (refl, h)
    dispatch_verb-IsQuiet on_mset e cmd clock o h =
        if-IsQuiet e (ltb (num_args cmd) 2 || not (is_even (num_args cmd))) _ _ (refl, h)
          (write_wal_all-IsQuiet e _ _ clock (length (pairs_of cmd.args [])) (refl, h))
    dispatch_verb-IsQuiet on_incr e cmd clock o h =
        incr_parsed_by-IsQuiet e (arg cmd 0) (some (pos 1)) (clock 0) h
    dispatch_verb-IsQuiet on_decr e cmd clock o h =
        incr_parsed_by-IsQuiet e (arg cmd 0) (some (negsuc 0)) (clock 0) h
    dispatch_verb-IsQuiet on_incrby e cmd clock o h =
        if-IsQuiet e (ltb (num_args cmd) 2) _ _ (refl, h)
          (incr_parsed_by-IsQuiet e (arg cmd 0) (parse_int (arg cmd 1)) (clock 0) h)
    dispatch_verb-IsQuiet on_decrby e cmd clock o h =
        if-IsQuiet e (ltb (num_args cmd) 2) _ _ (refl, h)
          (incr_parsed_by-IsQuiet e (arg cmd 0) (negated (parse_int (arg cmd 1))) (clock 0) h)
    dispatch_verb-IsQuiet on_append e cmd clock o h =
        if-IsQuiet e (ltb (num_args cmd) 2) _ _ (refl, h) (answered-IsQuiet e _ _ _ (refl, h))
    dispatch_verb-IsQuiet on_strlen e cmd clock o h = answered-IsQuiet e e _ _ (refl, h)
    dispatch_verb-IsQuiet on_setnx e cmd clock o h =
        if-IsQuiet e (ltb (num_args cmd) 2) _ _ (refl, h) (refl, h)
    dispatch_verb-IsQuiet on_getset e cmd clock o h = answered-IsQuiet e _ _ _ (refl, h)
    dispatch_verb-IsQuiet on_keys e cmd clock o h = (refl, h)
    dispatch_verb-IsQuiet on_scan e cmd clock o h = (refl, h)
    dispatch_verb-IsQuiet on_dbsize e cmd clock o h = (refl, h)
    dispatch_verb-IsQuiet on_other e cmd clock o h = o refl
