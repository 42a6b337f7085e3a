-- ===== src/Query/Crash/Refined.antt =====
-- The counters, and all commands together: what a handler does to the store is what its prepared
-- effects say.
use dbx_database_extreme.Base.{
  ℕ, ◌≡◌, refl, subst, ◌<◌, ◌^◌, ap, Bool, true, false, Bytes, Option, none, some, List, [], ◌∷◌,
  inl, inr, arith, ltb, length, get_or, ℤ, pos, negsuc, if◌then◌else◌, Bool-cases, IsInt64, wrap64,
  wrap64-IsInt64, ◌-ℤ◌,
}
use dbx_database_extreme.Util.Decimal.{parse_int, parse_int-IsInt64}
use dbx_database_extreme.Engine.Kv.Shards.{IsSharded}
use dbx_database_extreme.Persistence.Wal.Encode.{WalEffect}
use dbx_database_extreme.Query.Command.{Command, arg, num_args, normalized}
use dbx_database_extreme.Query.Verb.{
  Verb, on_del, on_exists, on_expire, on_ttl, on_persist, on_type, on_rename, on_get, on_set,
  on_setex, on_mget, on_mset, on_incr, on_decr, on_incrby, on_decrby, on_append, on_strlen,
  on_setnx, on_getset, on_keys, on_scan, on_dbsize, on_other,
}
use dbx_database_extreme.Query.Effects.{
  prepare_verb, string_state, StringState, absent, foreign, holding, negated, incr_effect,
  sum_effect,
}
use dbx_database_extreme.Query.Reply.{bulk, integer, array_of}
use dbx_database_extreme.Query.Executor.{Executor, Log, Outcome}
use dbx_database_extreme.Query.Dispatch.{
  dispatch_verb, replied, refuse, wrong_args, with_kv, incr_parsed_by,
}
use dbx_database_extreme.Engine.Strings.{get_string, incr}
use dbx_database_extreme.Query.Crash.Replies.{answered-kv}
use dbx_database_extreme.Query.Crash.Updated.{incr-IsStep}
use dbx_database_extreme.Query.Crash.View.{IsClean, IsStep, same-IsStep}
use dbx_database_extreme.Query.Crash.Commands.{
  IsSafe, at_n, answered-IsStep, effects_of, set-IsStep, setex-IsStep, setnx-IsStep, getset-IsStep,
  mset-IsStep, del-IsStep, rename_command-IsStep, append-IsStep,
}

module _ (accepts : Log → List WalEffect → Bool) (other : Executor → Command → (ℕ → ℤ) → Outcome)
    (e : Executor) (cmd : Command) (n : ℕ) (c : IsClean e.kv) (h : IsSharded e.kv) where
  sum_effect-none : (key : Bytes) (o : Option ℤ) (d : ℤ) → sum_effect key o none d ≡ []
  unfolding sum_effect
  sum_effect-none key none d = refl
  sum_effect-none key (some v) d = refl

  incr_effect-none : (key : Bytes) (st : StringState) → incr_effect key st none ≡ []
  unfolding incr_effect sum_effect
  incr_effect-none key absent = refl
  incr_effect-none key foreign = refl
  incr_effect-none key (holding b d) = sum_effect-none key (parse_int b) d

  incr_parsed_by-IsStep :
      (key : Bytes) (o : Option ℤ)
      → ((by : ℤ) → o ≡ some by → IsInt64 by)
      → IsStep e.kv
          (incr_parsed_by accepts e key o (pos n)).1.kv
          (incr_effect key (string_state e.kv key (pos n)) o)
          n
  unfolding incr_parsed_by refuse
  incr_parsed_by-IsStep key none r =
      rw (incr_effect-none key (string_state e.kv key (pos n))) (same-IsStep e.kv n c h)
  incr_parsed_by-IsStep key (some by) r =
      rw
        (answered-kv (with_kv e (incr e.kv key by (pos n)).1) (incr e.kv key by (pos n)).0
          (λ i. integer i ∷ []))
        (incr-IsStep e.kv c h key n by (r by refl))

  negated-IsInt64 : (o : Option ℤ) (by : ℤ) → negated o ≡ some by → IsInt64 by
  unfolding negated
  negated-IsInt64 none by s = absurd (cc)
  negated-IsInt64 (some z) by s =
      let same : wrap64 (pos 0 -ℤ z) ≡ by = cc in
      subst (λ x. IsInt64 x) same (wrap64-IsInt64 (pos 0 -ℤ z))

  absent-number :
      (args : List Bytes) → ltb (length args) 2 ≡ true → parse_int (get_or args 1 []) ≡ none
  unfolding parse_int
  absent-number [] s = refl
  absent-number (k ∷ []) s = refl
  absent-number (k ∷ v ∷ args) s = absurd (ground (arith, s))

  -- A read, behind a check of its arguments.
  read-IsStep :
      (b : Bool) (o o' : Outcome)
      → o.1.kv ≡ e.kv
      → o'.1.kv ≡ e.kv
      → IsStep e.kv (if b then o else o').1.kv [] n
  read-IsStep true o o' s t = rw s (same-IsStep e.kv n c h)
  read-IsStep false o o' s t = rw t (same-IsStep e.kv n c h)

  counted :
      (o : Option ℤ)
      → ((by : ℤ) → o ≡ some by → IsInt64 by)
      → (ltb (num_args cmd) 2 ≡ true → o ≡ none)
      → IsStep e.kv
          (if ltb (num_args cmd) 2
            then wrong_args e (normalized cmd)
            else incr_parsed_by accepts e (arg cmd 0) o (pos n)).1.kv
          (incr_effect (arg cmd 0) (string_state e.kv (arg cmd 0) (pos n)) o)
          n
  unfolding wrong_args
  counted o r q = elim (Bool-cases (ltb (num_args cmd) 2)) [
    | inl s ↦
        rw (s, q s, incr_effect-none (arg cmd 0) (string_state e.kv (arg cmd 0) (pos n)))
          (same-IsStep e.kv n c h)
    | inr s ↦ rw s (incr_parsed_by-IsStep (arg cmd 0) o r)
  ]

  small-IsInt64 : (v by : ℤ) → IsInt64 v → some v ≡ some by → IsInt64 by
  small-IsInt64 v by r s = subst (λ x. IsInt64 x) {x = v} {y = by} (cc) r

  -- On a store of strings with deadlines in range, at one time in the range of `int64`: what Dispatch of a
  -- command that the log can make good does to the store is what its prepared effects say (none, for a
  -- command that is not prepared), to every reader behind that time; the effects set keys or delete them,
  -- and the store still holds strings with deadlines in range in well-formed shards.
  pub dispatch_verb-IsStep :
      (v : Verb)
      → n < 2 ^ 63
      → IsSafe v e.kv cmd n
      → IsStep e.kv
          (dispatch_verb accepts other v e cmd (at_n accepts other e cmd n c h)).1.kv
          (effects_of (prepare_verb v e.kv cmd (at_n accepts other e cmd n c h)))
          n
  unfolding dispatch_verb prepare_verb effects_of replied wrong_args
  dispatch_verb-IsStep on_set m s = set-IsStep accepts other e cmd n c h s
  dispatch_verb-IsStep on_setex m s = setex-IsStep accepts other e cmd n c h s
  dispatch_verb-IsStep on_setnx m s = setnx-IsStep accepts other e cmd n c h m
  dispatch_verb-IsStep on_getset m s = getset-IsStep accepts other e cmd n c h s
  dispatch_verb-IsStep on_mset m s = mset-IsStep accepts other e cmd n c h
  dispatch_verb-IsStep on_del m s = del-IsStep accepts other e cmd n c h
  dispatch_verb-IsStep on_rename m s = rename_command-IsStep accepts other e cmd n c h m s
  dispatch_verb-IsStep on_append m s = append-IsStep accepts other e cmd n c h
  dispatch_verb-IsStep on_incr m s =
      incr_parsed_by-IsStep (arg cmd 0) (some (pos 1))
        (λ by q. small-IsInt64 (pos 1) by (omega arith, omega arith) q)
  dispatch_verb-IsStep on_decr m s =
      incr_parsed_by-IsStep (arg cmd 0) (some (negsuc 0))
        (λ by q. small-IsInt64 (negsuc 0) by (omega arith, omega arith) q)
  dispatch_verb-IsStep on_incrby m s =
      counted (parse_int (arg cmd 1)) (parse_int-IsInt64 (arg cmd 1))
        (λ q. unfold arg num_args in absent-number cmd.args q)
  dispatch_verb-IsStep on_decrby m s =
      counted (negated (parse_int (arg cmd 1))) (negated-IsInt64 (parse_int (arg cmd 1)))
        (λ q. unfold arg num_args negated in ap negated (absent-number cmd.args q))
  dispatch_verb-IsStep on_exists m s = read-IsStep (ltb (num_args cmd) 1) _ _ refl refl
  dispatch_verb-IsStep on_ttl m s = read-IsStep (ltb (num_args cmd) 1) _ _ refl refl
  dispatch_verb-IsStep on_type m s = same-IsStep e.kv n c h
  dispatch_verb-IsStep on_get m s =
      read-IsStep (ltb (num_args cmd) 1) _ _ refl
        (answered-kv e (get_string e.kv (arg cmd 0) (pos n)) (λ v. bulk v ∷ []))
  dispatch_verb-IsStep on_mget m s = answered-IsStep e.kv e _ array_of [] n (same-IsStep e.kv n c h)
  dispatch_verb-IsStep on_strlen m s = answered-IsStep e.kv e _ _ [] n (same-IsStep e.kv n c h)
  dispatch_verb-IsStep on_keys m s = same-IsStep e.kv n c h
  dispatch_verb-IsStep on_scan m s = same-IsStep e.kv n c h
  dispatch_verb-IsStep on_dbsize m s = same-IsStep e.kv n c h
  dispatch_verb-IsStep on_expire m s = absurd (cc)
  dispatch_verb-IsStep on_persist m s = absurd (cc)
  dispatch_verb-IsStep on_other m s = absurd (cc)
