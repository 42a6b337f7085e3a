-- ===== src/Query/Execute.antt =====
-- `Execute` of internal/query/executor.go on a node without Raft: its guards, in order, and the
-- write-ahead logging around `Dispatch`. Metrics and the test hook are not modelled.
use dbx_database_extreme.Base.{
  ℕ, Bool, true, false, ◌&&◌, ◌||◌, not, Option, none, some, List, [], ◌∷◌, codes, eqb, is_some, ℤ,
  if◌then◌else◌,
}
use dbx_database_extreme.Persistence.Wal.Encode.{WalEffect}
use dbx_database_extreme.Engine.Kv.{KvStore}
use dbx_database_extreme.Transaction.Multi.{is_active, queue_command}
use dbx_database_extreme.Query.Command.{
  Command, CommandInfo, normalized, lookup_info, supported_in_durable_v1,
}
use dbx_database_extreme.Query.Verb.{verb_of}
use dbx_database_extreme.Query.Effects.{prepare_verb, effects_fit_quota}
use dbx_database_extreme.Query.Reply.{
  Frame, simple_string, error_frame, unknown_command, unsupported, read_only_replica,
  quota_exceeded, wal_failed, internal_error,
}
use dbx_database_extreme.Query.Executor.{Executor, Log, Outcome, append_log}
use dbx_database_extreme.Query.Dispatch.{dispatch, refuse}

-- The commands that a transaction does not queue.
unfoldable pub is_immediate : Command → Bool
is_immediate cmd =
    let name = normalized cmd in
    eqb name (codes "EXEC")
    || (eqb name (codes "DISCARD") || (eqb name (codes "WATCH") || eqb name (codes "MULTI")))

unfoldable pub is_mutation : Executor → CommandInfo → Bool
is_mutation e i = is_some e.wal && (i.durable_v1 && not i.read_only)

-- A panic is answered with an error.
unfoldable pub recovered : Outcome → List Frame × Executor
recovered (none, e) = (error_frame internal_error ∷ [], e)
recovered (some frames, e) = (frames, e)

-- `measure` is what `measureMemoryUsage` returns of the stores.
module _ (accepts : Log → List WalEffect → Bool) (other : Executor → Command → (ℕ → ℤ) → Outcome)
    (measure : KvStore → ℤ) where
  -- Behind a handler that returned: the memory that was projected, or a new measurement.
  unfoldable pub account : Outcome → Option ℤ → Outcome
  account (none, e) projected = (none, e)
  account (some frames, e) none = (some frames, record e { accounted_memory = measure e.kv })
  account (some frames, e) (some projected) =
      (some frames, record e { accounted_memory = projected })

  unfoldable pub release_wal : Outcome → Outcome
  release_wal (reply, e) = (reply, record e { suppress_wal = false })

  -- With its effects in the log, a command is executed without logging again.
  unfoldable pub run_logged : Bool × Executor → Command → ℤ → (ℕ → ℤ) → Outcome
  unfolding account release_wal refuse
  run_logged (false, e) cmd projected clock = refuse e wal_failed
  run_logged (true, e) cmd projected clock = release_wal (
      account (dispatch accepts other (record e { suppress_wal = true }) cmd clock)
        (some projected))

  unfoldable pub log_and_run :
      Executor → Log → Command → List WalEffect → Bool × ℤ → (ℕ → ℤ) → Outcome
  unfolding run_logged refuse
  log_and_run e log cmd effects (fits, projected) clock =
      if fits
      then run_logged (append_log accepts e log effects) cmd projected clock
      else refuse e quota_exceeded

  -- `clocks 0`, `clocks 1` and `clocks 2` are the readings of `prepareDurableEffects`,
  -- `effectsFitQuota` and `Dispatch`.
  unfoldable pub run_prepared :
      Executor → Log → Command → Option (List WalEffect) → (ℕ → ℕ → ℤ) → Outcome
  unfolding account log_and_run
  run_prepared e log cmd none clocks = account (dispatch accepts other e cmd (clocks 2)) none
  run_prepared e log cmd (some []) clocks =
      account (dispatch accepts other e cmd (clocks 2)) (some e.accounted_memory)
  run_prepared e log cmd (some (effect ∷ effects)) clocks =
      log_and_run e log cmd (effect ∷ effects)
        (effects_fit_quota e.kv e.max_memory e.accounted_memory (effect ∷ effects) (clocks 1))
        (clocks 2)

  unfoldable pub run_durable : Executor → Option Log → Command → (ℕ → ℕ → ℤ) → Outcome
  unfolding run_prepared
  run_durable e none cmd clocks = dispatch accepts other e cmd (clocks 2)
  run_durable e (some log) cmd clocks =
      run_prepared e log cmd (prepare_verb (verb_of cmd) e.kv cmd (clocks 0)) clocks

  unfoldable pub admit_known : Executor → CommandInfo → Command → (ℕ → ℕ → ℤ) → Outcome
  unfolding run_durable is_mutation refuse
  admit_known e i cmd clocks =
      if is_some e.wal && not (supported_in_durable_v1 (normalized cmd))
      then refuse e unsupported
      else if e.read_only && not i.read_only
      then refuse e read_only_replica
      else if is_mutation e i
      then run_durable e e.wal cmd clocks
      else dispatch accepts other e cmd (clocks 2)

  unfoldable pub admit : Executor → Option CommandInfo → Command → (ℕ → ℕ → ℤ) → Outcome
  unfolding admit_known refuse
  admit e none cmd clocks = refuse e unknown_command
  admit e (some i) cmd clocks = admit_known e i cmd clocks

  unfoldable pub execute : Executor → ℕ → Command → (ℕ → ℕ → ℤ) → List Frame × Executor
  unfolding recovered admit is_immediate
  execute e client cmd clocks =
      if is_active e.multi client && not (is_immediate cmd)
      then (
        simple_string (codes "QUEUED") ∷ [],
        record e { multi = queue_command e.multi client cmd },
      )
      else recovered (admit e (lookup_info (normalized cmd)) cmd clocks)
