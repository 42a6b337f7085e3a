-- ===== src/Query/Crash/Commands.antt =====
-- Each command on keys and strings: what the handler does is what its prepared effects say.
use dbx_database_extreme.Base.{
  ℕ, ◌+◌, ◌*◌, ◌≡◌, refl, subst, ◌≢◌, ◌<◌, ◌^◌, sym, Bool, true, false, not, ◌||◌, Bytes, Option,
  none, some, List, [], ◌∷◌, inl, inr, arith, eqb, ltb, length, drop, ℤ, pos, pos_part, neg_part,
  leb_ℤ, ltb_ℤ, if◌then◌else◌, Bool-cases, map,
}
use dbx_database_extreme.Util.Decimal.{parse_int}
use dbx_database_extreme.Engine.Entry.{Entry}
use dbx_database_extreme.Engine.Kv.{KvStore, second, get, delete_keys, rename}
use dbx_database_extreme.Engine.Kv.Shards.{IsSharded}
use dbx_database_extreme.Engine.Typed.{Answer, done, failed, panicked}
use dbx_database_extreme.Engine.Strings.SetArgs.{SetArgs, parse_set_args}
use dbx_database_extreme.Persistence.Wal.Encode.{WalEffect}
use dbx_database_extreme.Query.Command.{Command, arg, num_args}
use dbx_database_extreme.Query.Verb.{
  Verb, on_del, on_expire, on_persist, on_rename, on_set, on_setex, on_mset, on_append, on_setnx,
  on_getset, on_other,
}
use dbx_database_extreme.Query.Effects.{
  prepare_verb, string_state, put, set_effect, StringState, absent, foreign, holding,
  parsed_set_effect, setex_effect, setnx_effect, is_even, delete_existing, put_pairs,
}
use dbx_database_extreme.Query.Reply.{Frame, bulk, integer, ok_frame, key_not_found}
use dbx_database_extreme.Query.Executor.{Executor, Log, Outcome, logged_reply}
use dbx_database_extreme.Query.Dispatch.{
  dispatch_verb, answered, replied, refuse, wrong_args, set_args_of, set_parsed, setex_parsed,
  with_kv, mset_handler, pairs_of, timed_pairs,
}
use dbx_database_extreme.Engine.Strings.{set_string, get_set, append_to, mset}
use dbx_database_extreme.Query.Crash.Replies.{
  answered-kv, parsed-args, timely-pos, set_done-kv, del_done-kv, write_wal_all-kv,
}
use dbx_database_extreme.Query.Crash.Written.{set_string-IsStep, timed-IsStep}
use dbx_database_extreme.Query.Crash.Updated.{get_set-IsStep, append_to-IsStep}
use dbx_database_extreme.Query.Crash.Removed.{delete_keys-IsStep}
use dbx_database_extreme.Query.Crash.Renamed.{rename-IsStep}
use dbx_database_extreme.Query.Crash.Paired.{mset_handler-IsStep}
use dbx_database_extreme.Query.Crash.View.{IsClean, IsStep, same-IsStep}

-- A time to live at time n: not negative, with its deadline in the range of `int64`.
abbrev pub IsTimely : ℤ → ℕ → Type 0
IsTimely t n = (neg_part t ≡ 0) × (n + second * pos_part t < 2 ^ 63)

-- What the log can make good: the deadlines in range, no RENAME of a key to itself or at the instant of
-- its deadline, no GETSET without a value; EXPIRE and PERSIST are left out.
abbrev pub IsSafe : Verb → KvStore → Command → ℕ → Type 0
IsSafe on_set kv cmd n =
    (a : SetArgs) → parse_set_args (drop 1 cmd.args) ≡ done a → IsTimely a.ttl_sec n
IsSafe on_setex kv cmd n =
    (t : ℤ) → parse_int (arg cmd 1) ≡ some t → leb_ℤ t (pos 0) ≡ false → IsTimely t n
IsSafe on_rename kv cmd n =
    (eqb (arg cmd 0) (arg cmd 1) ≡ false)
    × ((e : Entry) → get kv (arg cmd 0) (pos n) ≡ some e → e.expires_at ≢ pos n)
IsSafe on_getset kv cmd n = ltb (num_args cmd) 2 ≡ false
IsSafe on_expire kv cmd n = true ≡ false
IsSafe on_persist kv cmd n = true ≡ false
IsSafe on_other kv cmd n = true ≡ false
IsSafe _ kv cmd n = Unit

-- A command that is not prepared has no effects.
unfoldable pub effects_of : Option (List WalEffect) → List WalEffect
effects_of none = []
effects_of (some es) = es

-- A handler's reply takes nothing from the step.
pub answered-IsStep :
    {B : Type 0} (kv : KvStore) (e : Executor) (a : Answer B) (f : B → List Frame)
    (es : List WalEffect) (n : ℕ)
    → IsStep kv e.kv es n
    → IsStep kv (answered e a f).1.kv es n
answered-IsStep kv e a f es n s = rw (answered-kv e a f) s

module _ (accepts : Log → List WalEffect → Bool) (other : Executor → Command → (ℕ → ℤ) → Outcome)
    (e : Executor) (cmd : Command) (n : ℕ) (c : IsClean e.kv) (h : IsSharded e.kv) where
  abbrev pub at_n : ℕ → ℤ
  at_n i = pos n

  abbrev pub IsDone : Verb → Type 0
  IsDone v =
      IsStep e.kv (dispatch_verb accepts other v e cmd at_n).1.kv
        (effects_of (prepare_verb v e.kv cmd at_n)) n

  -- SET.
  set_parsed-IsStep :
      (key : Bytes) (r : Answer SetArgs)
      → ((a : SetArgs) → r ≡ done a → IsTimely a.ttl_sec n)
      → IsStep e.kv
          (set_parsed accepts e key r at_n).1.kv
          (parsed_set_effect key (string_state e.kv key (pos n)) r (pos n))
          n
  unfolding set_parsed parsed_set_effect
  set_parsed-IsStep key (done a) t =
      let (low, top) = t a refl in
      rw
        (set_done-kv accepts e key a.value a.ttl_sec (pos n)
          (set_string e.kv key a.value a.ttl_sec a.nx a.xx (pos n) (pos n) (pos n)))
        (set_string-IsStep e.kv c h key n a (pos_part a.ttl_sec) (timely-pos a.ttl_sec low) top)
  set_parsed-IsStep key (failed m) t = same-IsStep e.kv n c h
  set_parsed-IsStep key panicked t = same-IsStep e.kv n c h

  pub set-IsStep : IsSafe on_set e.kv cmd n → IsDone on_set
  unfolding dispatch_verb prepare_verb effects_of wrong_args num_args
  set-IsStep t = elim (Bool-cases (ltb (length cmd.args) 2)) [
    | inl s ↦ rw s (same-IsStep e.kv n c h)
    | inr s ↦
        let same : set_args_of cmd ≡ parse_set_args (drop 1 cmd.args) =
          unfold set_args_of arg num_args in parsed-args cmd.args s in
        rw (s, same) (set_parsed-IsStep (arg cmd 0) (parse_set_args (drop 1 cmd.args)) t)
  ]

  setex_parsed-IsStep :
      (key value : Bytes) (o : Option ℤ)
      → ((t : ℤ) → o ≡ some t → leb_ℤ t (pos 0) ≡ false → IsTimely t n)
      → IsStep e.kv
          (setex_parsed accepts e key value o at_n).1.kv
          (setex_effect key value o (pos n))
          n
  unfolding setex_parsed setex_effect refuse
  setex_parsed-IsStep key value none t = same-IsStep e.kv n c h
  setex_parsed-IsStep key value (some s) t = elim (Bool-cases (leb_ℤ s (pos 0))) [
    | inl u ↦ rw u (same-IsStep e.kv n c h)
    | inr u ↦
        let (low, top) = t s refl u in
        let ahead : ltb_ℤ (pos 0) (pos (pos_part s)) ≡ true = ground (arith, u) in
        let whole : s ≡ pos (pos_part s) = timely-pos s low in
        let step = timed-IsStep e.kv c h key n value (pos_part s) top in
        rw
          (
            u,
            set_done-kv accepts e key value s (pos n)
                (set_string e.kv key value s false false (pos n) (pos n) (pos n)),
          )
          (unfold set_string in rw whole (rw ahead at step))
  ]

  pub setex-IsStep : IsSafe on_setex e.kv cmd n → IsDone on_setex
  unfolding dispatch_verb prepare_verb effects_of wrong_args
  setex-IsStep t = elim (Bool-cases (ltb (num_args cmd) 3)) [
    | inl s ↦ rw s (same-IsStep e.kv n c h)
    | inr s ↦ rw s (setex_parsed-IsStep (arg cmd 0) (arg cmd 2) (parse_int (arg cmd 1)) t)
  ]

  set_effect-setnx :
      (key value : Bytes) (st : StringState)
      → set_effect key st (record { value = value; ttl_sec = pos 0; nx = true; xx = false }) (pos n)
        ≡ setnx_effect key value st
  unfolding set_effect setnx_effect
  set_effect-setnx key value absent = refl
  set_effect-setnx key value foreign = refl
  set_effect-setnx key value (holding b d) = refl

  pub setnx-IsStep : n < 2 ^ 63 → IsDone on_setnx
  unfolding dispatch_verb prepare_verb effects_of wrong_args replied
  setnx-IsStep m = elim (Bool-cases (ltb (num_args cmd) 2)) [
    | inl s ↦ rw s (same-IsStep e.kv n c h)
    | inr s ↦
        rw (s, ← set_effect-setnx (arg cmd 0) (arg cmd 1) (string_state e.kv (arg cmd 0) (pos n)))
          (set_string-IsStep e.kv c h (arg cmd 0) n
            (record { value = arg cmd 1; ttl_sec = pos 0; nx = true; xx = false }) 0 refl
            (omega arith))
  ]

  pub getset-IsStep : IsSafe on_getset e.kv cmd n → IsDone on_getset
  unfolding dispatch_verb prepare_verb effects_of
  getset-IsStep s =
      rw
        (
          s,
          answered-kv (with_kv e (get_set e.kv (arg cmd 0) (arg cmd 1) (pos n) (pos n)).1)
              (get_set e.kv (arg cmd 0) (arg cmd 1) (pos n) (pos n)).0 (λ v. bulk v ∷ []),
        )
        (get_set-IsStep e.kv c h (arg cmd 0) n (arg cmd 1))

  pub mset-IsStep : IsDone on_mset
  unfolding dispatch_verb prepare_verb effects_of wrong_args mset_handler logged_reply
  mset-IsStep = elim (Bool-cases (ltb (num_args cmd) 2 || not (is_even (num_args cmd)))) [
    | inl s ↦ rw s (same-IsStep e.kv n c h)
    | inr s ↦ rw s (
        subst (λ kv. IsStep e.kv kv (put_pairs cmd.args) n)
          (sym (
            write_wal_all-kv accepts
              (with_kv e (mset e.kv (timed_pairs (pairs_of cmd.args []) at_n 0)))
              (map (λ (p : Bytes × Bytes). put p.0 p.1 (pos 0)) (pairs_of cmd.args [])) at_n
              (length (pairs_of cmd.args []))))
          (mset_handler-IsStep e.kv cmd.args n c h))
  ]

  no-deletions :
      (keys : List Bytes) → ltb (length keys) 1 ≡ true → delete_existing e.kv keys at_n 1 ≡ []
  unfolding delete_existing
  no-deletions [] s = refl
  no-deletions (k ∷ keys) s = absurd (ground (arith, s))

  pub del-IsStep : IsDone on_del
  unfolding dispatch_verb prepare_verb effects_of wrong_args
  del-IsStep = elim (Bool-cases (ltb (num_args cmd) 1)) [
    | inl s ↦ rw (s, no-deletions cmd.args (unfold num_args in s)) (same-IsStep e.kv n c h)
    | inr s ↦
        rw (s, del_done-kv accepts e cmd.args (delete_keys e.kv cmd.args) at_n)
          (delete_keys-IsStep e.kv cmd.args n 1 c h)
  ]

  rename_done-kv :
      (r : Bool × KvStore)
      → (if r.0
          then replied (with_kv e r.1) (ok_frame ∷ [])
          else refuse (with_kv e r.1) key_not_found).1.kv
        ≡ r.1
  unfolding replied refuse
  rename_done-kv (true, kv) = refl
  rename_done-kv (false, kv) = refl

  pub rename_command-IsStep : n < 2 ^ 63 → IsSafe on_rename e.kv cmd n → IsDone on_rename
  unfolding dispatch_verb prepare_verb effects_of wrong_args
  rename_command-IsStep m (other_key, later) = elim (Bool-cases (ltb (num_args cmd) 2)) [
    | inl s ↦ rw s (same-IsStep e.kv n c h)
    | inr s ↦
        rw (s, rename_done-kv (rename e.kv (arg cmd 0) (arg cmd 1) (pos n) (pos n) (pos n)))
          (rename-IsStep e.kv c h (arg cmd 0) (arg cmd 1) n other_key later m)
  ]

  pub append-IsStep : IsDone on_append
  unfolding dispatch_verb prepare_verb effects_of wrong_args
  append-IsStep = elim (Bool-cases (ltb (num_args cmd) 2)) [
    | inl s ↦ rw s (same-IsStep e.kv n c h)
    | inr s ↦
        rw
          (
            s,
            answered-kv (with_kv e (append_to e.kv (arg cmd 0) (arg cmd 1) (pos n)).1)
                (append_to e.kv (arg cmd 0) (arg cmd 1) (pos n)).0 (λ i. integer (pos i) ∷ []),
          )
          (append_to-IsStep e.kv c h (arg cmd 0) n (arg cmd 1))
  ]
