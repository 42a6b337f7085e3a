-- ===== src/Query/Crash/Executed.antt =====
-- One command through `Execute`, and a sequence of them.
use dbx_database_extreme.Base.{
  ℕ, ◌≡◌, ◌<◌, ◌^◌, ◌∙◌, ap, sym, subst, ◌⊎◌, inl, inr, Bool, false, some, List, [], ◌∷◌, ◌++◌, ℤ,
  pos,
}
use dbx_database_extreme.Engine.Kv.{KvStore}
use dbx_database_extreme.Engine.Kv.Shards.{IsSharded}
use dbx_database_extreme.Persistence.Wal.Encode.{WalEffect}
use dbx_database_extreme.Transaction.Multi.{is_active}
use dbx_database_extreme.Query.Command.{Command}
use dbx_database_extreme.Query.Verb.{verb_of}
use dbx_database_extreme.Query.Effects.{prepare_verb, effects_fit_quota}
use dbx_database_extreme.Query.Reply.{Frame, error_frame, quota_exceeded, wal_failed}
use dbx_database_extreme.Query.Executor.{Executor, Log, Outcome}
use dbx_database_extreme.Query.Dispatch.{dispatch_verb}
use dbx_database_extreme.Query.Execute.{execute}
use dbx_database_extreme.Query.Crash.Logged.{IsLogged, IsDecided, with_record, execute-IsDecided}
use dbx_database_extreme.Query.Crash.View.{IsClean, IsStep}
use dbx_database_extreme.Query.Crash.Commands.{IsSafe, effects_of}
use dbx_database_extreme.Query.Crash.Refined.{dispatch_verb-IsStep}

-- A mutation at time n that reaches the log: the client has no transaction open, the node takes writes, and
-- the command has effects.
pub record IsMutation (e : Executor) (client : ℕ) (cmd : Command) (n : ℕ) (log : Log)
    (es : List WalEffect) : Type 0 where
  pub outside : is_active e.multi client ≡ false
  pub takes_writes : e.read_only ≡ false
  pub has_log : e.wal ≡ some log
  pub has_effects : prepare_verb (verb_of cmd) e.kv cmd (λ i. pos n) ≡ some es
  pub nonempty : (x : WalEffect) × (xs : List WalEffect) × (es ≡ x ∷ xs)

module _ (accepts : Log → List WalEffect → Bool) (other : Executor → Command → (ℕ → ℤ) → Outcome)
    (measure : KvStore → ℤ) where
  -- What the client gets when the command is not taken.
  abbrev pub IsRefused : List Frame × Executor → Executor → Type 0
  IsRefused r e =
      (r.1 ≡ e) × ((r.0 ≡ error_frame quota_exceeded ∷ []) ⊎ (r.0 ≡ error_frame wal_failed ∷ []))

  abbrev pub IsTaken : List Frame × Executor → Executor → Log → List WalEffect → ℕ → Type 0
  IsTaken r e log es n = (r.1.wal ≡ some (log ++ es ∷ [])) × IsStep e.kv r.1.kv es n

  module _ (e : Executor) (client : ℕ) (cmd : Command) (n : ℕ) (log : Log) (es : List WalEffect)
      (w : IsMutation e client cmd n log es) where
    abbrev still : ℕ → ℕ → ℤ
    still i k = pos n

    -- A command with its effects in the log does what they say.
    logged-IsTaken :
        (r : List Frame × Executor)
        → IsClean e.kv
        → IsSharded e.kv
        → n < 2 ^ 63
        → IsSafe (verb_of cmd) e.kv cmd n
        → IsLogged accepts other measure r e cmd log es (still 2)
        → IsTaken r e log es n
    unfolding effects_of
    logged-IsTaken r c h m s (wal_left, kv_left) =
        let step =
          dispatch_verb-IsStep accepts other (with_record accepts other measure e log es) cmd n c h
            (verb_of cmd) m s in
        (
          wal_left,
          subst (λ kv. IsStep e.kv kv es n) (sym kv_left)
              (subst
                (λ ys.
                  IsStep e.kv
                    (dispatch_verb accepts other (verb_of cmd)
                      (with_record accepts other measure e log es) cmd (λ i. pos n)).1.kv
                    ys n)
                (ap effects_of w.has_effects) step),
        )

    -- A mutation that reaches the log and that the log can make good, on a store of strings with
    -- deadlines in range, during which the clock does not move (every reading of it that Execute
    -- makes, before and behind the write to the log, is n): Execute answers that the quota or the log refuses it and leaves the executor
    -- as it is, or the log grows by just the prepared effects and the store shows what they say.
    pub execute-cases :
        IsClean e.kv
        → IsSharded e.kv
        → n < 2 ^ 63
        → IsSafe (verb_of cmd) e.kv cmd n
        → IsRefused (execute accepts other measure e client cmd still) e
          ⊎ IsTaken (execute accepts other measure e client cmd still) e log es n
    execute-cases c h m s =
        let (x, xs, full) = w.nonempty in
        let fits = (effects_fit_quota e.kv e.max_memory e.accounted_memory (x ∷ xs) (still 1)).0 in
        let decided : IsDecided accepts other measure
            (execute accepts other measure e client cmd still) e cmd log es fits (still 2) =
          subst
            (λ ys.
              IsDecided accepts other measure (execute accepts other measure e client cmd still) e
                cmd log ys fits (still 2))
            (sym full)
            (execute-IsDecided accepts other measure e client cmd still log x xs w.outside w.has_log
              w.takes_writes (w.has_effects ∙ ap some full)) in
        elim decided [
          | inl (over, left) ↦ inl (ap (λ r. r.1) left, inl (ap (λ r. r.0) left))
          | inr (inl (room, down, left)) ↦ inl (ap (λ r. r.1) left, inr (ap (λ r. r.0) left))
          | inr (inr (room, up, logged)) ↦
              inr (logged-IsTaken (execute accepts other measure e client cmd still) c h m s logged)
        ]
