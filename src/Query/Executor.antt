-- ===== src/Query/Executor.antt =====
-- The executor of internal/query/executor.go: its state, and the records that its handlers log.
use dbx_database_extreme.Base.{
  ℕ, suc, Bool, true, false, ◌&&◌, ◌==◌, pos, ◌+ℤ◌, wrap64, ltb_ℤ, Option, none, some, List, [],
  ◌∷◌, ◌++◌, ℤ, if◌then◌else◌,
}
use dbx_database_extreme.Engine.Kv.{KvStore}
use dbx_database_extreme.Persistence.Wal.Encode.{WalEffect, record_expire}
use dbx_database_extreme.Transaction.Multi.{MultiManager}
use dbx_database_extreme.Query.Command.{Command}
use dbx_database_extreme.Query.Reply.{Frame, Message, error_frame, wal_failed}

-- The log as a reader sees it: the effects of each record, in order.
abbrev pub Log : Type 0
Log = List (List WalEffect)

-- `wal` is none for an executor without persistence. The stores of strings, lists, hashes and sets
-- hold the key-value store only.
pub record Executor : Type 0 where
  pub kv : KvStore
  pub wal : Option Log
  pub suppress_wal : Bool
  pub max_memory : ℤ
  pub accounted_memory : ℤ
  pub read_only : Bool
  pub multi : MultiManager Command Message

-- What a handler writes to its client (none: it panicked), and the state that it leaves.
abbrev pub Outcome : Type 0
Outcome = Option (List Frame) × Executor

-- The one effect that `(*WAL).Write` makes of a record without effects, at the time of the record: a time to
-- live that is not of EXPIRE becomes a deadline, one of EXPIRE only if it is too early for a deadline.
unfoldable pub stamped : WalEffect → ℤ → WalEffect
stamped x now =
    let deadline = wrap64 (now +ℤ x.expires_at) in
    let is_positive = ltb_ℤ (pos 0) x.expires_at in
    let is_relative = if x.typ == record_expire then ltb_ℤ x.expires_at now else true in
    record x { expires_at = if is_positive && is_relative then deadline else x.expires_at }

-- `accepts` tells whether the disk takes a record behind those that are there.
module _ (accepts : Log → List WalEffect → Bool) where
  unfoldable pub append_log : Executor → Log → List WalEffect → Bool × Executor
  append_log e log effects =
      if accepts log effects
      then (true, record e { wal = some (log ++ effects ∷ []) })
      else (false, e)

  unfoldable pub write_to : Executor → Option Log → WalEffect → Bool × Executor
  unfolding append_log
  write_to e none effect = (true, e)
  write_to e (some log) effect =
      if e.suppress_wal then (true, e) else append_log e log (effect ∷ [])

  -- `writeWAL` of a record without a list of effects: `expires_at` of the argument is the `TTLNano` of the
  -- record, `now` the timestamp that `Write` gives it. false is an error.
  unfoldable pub write_wal : Executor → WalEffect → ℤ → Bool × Executor
  unfolding write_to stamped
  write_wal e effect now = write_to e e.wal (stamped effect now)

  -- A loop of `writeWAL` that stops at the first error.
  -- The timestamps are the readings of the clock from n on.
  unfoldable pub write_wal_all : Executor → List WalEffect → (ℕ → ℤ) → ℕ → Bool × Executor
  unfolding write_wal
  write_wal_all e [] clock n = (true, e)
  write_wal_all e (effect ∷ effects) clock n =
      let (ok, e') = write_wal e effect (clock n) in
      let rest = write_wal_all e' effects clock (suc n) in if ok then rest else (false, e')

unfoldable pub logged_reply : Bool × Executor → List Frame → Outcome
logged_reply (ok, e) frames = (some (if ok then frames else error_frame wal_failed ∷ []), e)
