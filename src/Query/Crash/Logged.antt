-- ===== src/Query/Crash/Logged.antt =====
-- A mutation through `Execute`, at any readings of the clock: what it logs, and what it executes.
use dbx_database_extreme.Base.{
  ℕ, ◌≡◌, refl, ◌∙◌, sym, subst, ◌≢◌, ◌⊎◌, inl, inr, Bool, true, false, Option, none, some, List,
  [], ◌∷◌, ◌++◌, ℤ, Bool-cases,
}
use dbx_database_extreme.Engine.Kv.{KvStore}
use dbx_database_extreme.Persistence.Wal.Encode.{WalEffect}
use dbx_database_extreme.Transaction.Multi.{is_active}
use dbx_database_extreme.Query.Command.{Command}
use dbx_database_extreme.Query.Verb.{Verb, on_other, verb_of}
use dbx_database_extreme.Query.Effects.{prepare_verb, effects_fit_quota}
use dbx_database_extreme.Query.Reply.{Frame, error_frame, quota_exceeded, wal_failed}
use dbx_database_extreme.Query.Executor.{Executor, Log, Outcome, append_log}
use dbx_database_extreme.Query.Dispatch.{dispatch, dispatch_verb, refuse}
use dbx_database_extreme.Query.Execute.{
  execute, run_prepared, log_and_run, run_logged, account, release_wal, recovered,
}
use dbx_database_extreme.Query.Admitted.{execute-run_prepared}
use dbx_database_extreme.Query.Crash.Suppressed.{dispatch_verb-IsQuiet}

module _ (accepts : Log → List WalEffect → Bool) (other : Executor → Command → (ℕ → ℤ) → Outcome)
    (measure : KvStore → ℤ) where
  kept-account :
      (o : Outcome) (p : Option ℤ)
      → ((recovered (release_wal accepts other measure (account accepts other measure o p))).1.kv
          ≡ o.1.kv)
        × ((recovered (release_wal accepts other measure (account accepts other measure o p))).1.wal
            ≡ o.1.wal)
  unfolding account release_wal recovered
  kept-account (none, e) p = (refl, refl)
  kept-account (some frames, e) none = (refl, refl)
  kept-account (some frames, e) (some m) = (refl, refl)

  -- The executor in which the handler of a logged command runs.
  abbrev pub with_record : Executor → Log → List WalEffect → Executor
  with_record e log es = record e { wal = some (log ++ es ∷ []); suppress_wal = true }

  -- The command is in the log, and was executed.
  abbrev pub IsLogged :
      List Frame × Executor → Executor → Command → Log → List WalEffect → (ℕ → ℤ) → Type 0
  IsLogged r e cmd log es clock =
      (r.1.wal ≡ some (log ++ es ∷ []))
      × (r.1.kv ≡ (dispatch_verb accepts other (verb_of cmd) (with_record e log es) cmd clock).1.kv)

  -- What becomes of it: the quota refuses it, the disk does, or it is logged and executed.
  abbrev pub IsDecided :
      List Frame × Executor → Executor → Command → Log → List WalEffect → Bool → (ℕ → ℤ) → Type 0
  IsDecided r e cmd log es fits clock =
      ((fits ≡ false) × (r ≡ (error_frame quota_exceeded ∷ [], e)))
      ⊎ (((fits ≡ true) × (accepts log es ≡ false) × (r ≡ (error_frame wal_failed ∷ [], e)))
          ⊎ ((fits ≡ true) × (accepts log es ≡ true) × IsLogged r e cmd log es clock))

  prepared-known :
      (v : Verb) (kv : KvStore) (cmd : Command) (clock : ℕ → ℤ) (es : List WalEffect)
      → prepare_verb v kv cmd clock ≡ some es
      → v ≢ on_other
  unfolding prepare_verb
  prepared-known v kv cmd clock es h q =
      let no : none ≡ some es = subst (λ w. prepare_verb w kv cmd clock ≡ some es) q h in
      absurd (cc)

  run_logged-IsLogged :
      (e : Executor) (cmd : Command) (log : Log) (es : List WalEffect) (projected : ℤ)
      (clock : ℕ → ℤ)
      → verb_of cmd ≢ on_other
      → IsLogged
          (recovered (
            run_logged accepts other measure
              (true, record e { wal = some (log ++ es ∷ []) })
              cmd
              projected
              clock))
          e
          cmd
          log
          es
          clock
  unfolding run_logged dispatch
  run_logged-IsLogged e cmd log es projected clock known =
      let e' = with_record e log es in
      let o = dispatch_verb accepts other (verb_of cmd) e' cmd clock in
      let (quiet, off) =
        dispatch_verb-IsQuiet accepts other (verb_of cmd) e' cmd clock (λ q. absurd (known q))
          refl in
      let (kv_kept, wal_kept) = kept-account o (some projected) in (wal_kept ∙ quiet, kv_kept)

  log_and_run-IsDecided :
      (e : Executor) (cmd : Command) (log : Log) (es : List WalEffect) (fits : Bool) (projected : ℤ)
      (clock : ℕ → ℤ)
      → verb_of cmd ≢ on_other
      → IsDecided
          (recovered (log_and_run accepts other measure e log cmd es (fits, projected) clock))
          e
          cmd
          log
          es
          fits
          clock
  unfolding log_and_run append_log refuse recovered run_logged
  log_and_run-IsDecided e cmd log es false projected clock known = inl (refl, refl)
  log_and_run-IsDecided e cmd log es true projected clock known =
      elim (Bool-cases (accepts log es)) [
        | inl a ↦
            rw a (inr (inr (refl, refl, run_logged-IsLogged e cmd log es projected clock known)))
        | inr a ↦ rw a (inr (inl (refl, refl, refl)))
      ]

  -- On a node that has a log and takes writes, a command with effects of a client without an open
  -- transaction is refused by the quota or by the disk, which leaves the executor as it is; or the log grows
  -- by one record of just the prepared effects, and the store is the one that the handler leaves. The
  -- readings of the clock are arbitrary: the effects are prepared at the first, the handler runs at the
  -- last.
  pub execute-IsDecided :
      (e : Executor) (client : ℕ) (cmd : Command) (clocks : ℕ → ℕ → ℤ) (log : Log) (x : WalEffect)
      (xs : List WalEffect)
      → is_active e.multi client ≡ false
      → e.wal ≡ some log
      → e.read_only ≡ false
      → prepare_verb (verb_of cmd) e.kv cmd (clocks 0) ≡ some (x ∷ xs)
      → IsDecided
          (execute accepts other measure e client cmd clocks)
          e
          cmd
          log
          (x ∷ xs)
          (effects_fit_quota e.kv e.max_memory e.accounted_memory (x ∷ xs) (clocks 1)).0
          (clocks 2)
  unfolding run_prepared
  execute-IsDecided e client cmd clocks log x xs outside has_log takes_writes prepared =
      let es : List WalEffect = x ∷ xs in
      let fit = effects_fit_quota e.kv e.max_memory e.accounted_memory es (clocks 1) in
      subst (λ r. IsDecided r e cmd log es fit.0 (clocks 2))
        (sym (
          execute-run_prepared accepts other measure e client cmd clocks log es outside has_log
            takes_writes prepared))
        (log_and_run-IsDecided e cmd log es fit.0 fit.1 (clocks 2)
          (prepared-known (verb_of cmd) e.kv cmd (clocks 0) es prepared))
