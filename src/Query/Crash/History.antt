-- ===== src/Query/Crash/History.antt =====
-- A sequence of commands, the log that it leaves, and a recovery of that log.
use dbx_database_extreme.Base.{
  ℕ, ◌+◌, ◌≡◌, refl, ◌<◌, ◌≤◌, ◌^◌, ◌∙◌, ap, sym, subst, inl, inr, Bool, Bytes, some, List, [], ◌∷◌,
  ◌++◌, arith, ℤ, pos,
}
use dbx_database_extreme.Engine.Kv.{KvStore}
use dbx_database_extreme.Engine.Kv.Shards.{IsSharded}
use dbx_database_extreme.Persistence.Wal.Encode.{WalEffect}
use dbx_database_extreme.Persistence.Recovery.{replay_effects}
use dbx_database_extreme.Query.Command.{Command}
use dbx_database_extreme.Query.Verb.{verb_of}
use dbx_database_extreme.Query.Executor.{Executor, Log, Outcome}
use dbx_database_extreme.Query.Execute.{execute}
use dbx_database_extreme.Query.Crash.View.{view, IsClean, IsStep, same-IsStep, join-IsStep}
use dbx_database_extreme.Query.Crash.Replayed.{replay_effects-view}
use dbx_database_extreme.Query.Crash.Commands.{IsSafe}
use dbx_database_extreme.Query.Crash.Executed.{IsMutation, execute-cases}

-- A command of a client, with the time at which it is executed: all readings of the clock that it makes are
-- this one.
pub record Request : Type 0 where
  pub client : ℕ
  pub time : ℕ
  pub command : Command

-- The effects of a log, in order.
unfoldable pub all_effects : Log → List WalEffect
all_effects [] = []
all_effects (es ∷ log) = es ++ all_effects log

append_nil : (es : List WalEffect) → es ++ [] ≡ es
append_nil [] = refl
append_nil (e ∷ es) = ap (λ x. e ∷ x) (append_nil es)

append_assoc : (xs ys zs : List WalEffect) → (xs ++ ys) ++ zs ≡ xs ++ (ys ++ zs)
append_assoc [] ys zs = refl
append_assoc (x ∷ xs) ys zs = ap (λ t. x ∷ t) (append_assoc xs ys zs)

all_effects-append :
    (log : Log) (es : List WalEffect) → all_effects (log ++ es ∷ []) ≡ all_effects log ++ es
unfolding all_effects
all_effects-append [] es = append_nil es
all_effects-append (fs ∷ log) es =
    ap (λ t. fs ++ t) (all_effects-append log es) ∙ sym (append_assoc fs (all_effects log) es)

later-IsStep :
    (kv kv' : KvStore) (es : List WalEffect) (n m : ℕ)
    → n ≤ m
    → IsStep kv kv' es n
    → IsStep kv kv' es m
later-IsStep kv kv' es n m h s = record {
  final = s.final;
  sharded = s.sharded;
  clean = s.clean;
  follows = λ j l q. s.follows j l (omega arith);
}

-- The log of the executor accounts for its store, from the one at the beginning.
abbrev pub IsCovered : KvStore → Executor → ℕ → Type 0
IsCovered base e r = (log : Log) × (e.wal ≡ some log) × IsStep base e.kv (all_effects log) r

module _ (accepts : Log → List WalEffect → Bool) (other : Executor → Command → (ℕ → ℤ) → Outcome)
    (measure : KvStore → ℤ) where
  unfoldable pub run : Executor → List Request → Executor
  run e [] = e
  run e (q ∷ requests) =
      run (execute accepts other measure e q.client q.command (λ i k. pos q.time)).1 requests

  -- Each request is a mutation that reaches the log, at time r at the latest, and one that the log can
  -- make good.
  unfoldable pub IsSafeRun : Executor → List Request → ℕ → Type 0
  IsSafeRun e [] r = Unit
  IsSafeRun e (q ∷ requests) r =
      ((log : Log) × (es : List WalEffect) × IsMutation e q.client q.command q.time log es)
      × (q.time ≤ r)
      × IsSafe (verb_of q.command) e.kv q.command q.time
      × IsSafeRun (execute accepts other measure e q.client q.command (λ i k. pos q.time)).1
          requests r

  step-IsCovered :
      (base : KvStore) (e : Executor) (q : Request) (log' : Log) (es : List WalEffect) (r : ℕ)
      → IsMutation e q.client q.command q.time log' es
      → r < 2 ^ 63
      → q.time ≤ r
      → IsSafe (verb_of q.command) e.kv q.command q.time
      → IsCovered base e r
      → IsCovered base (execute accepts other measure e q.client q.command (λ i k. pos q.time)).1 r
  step-IsCovered base e q log' es r w m t s (log, there, step) =
      elim (execute-cases accepts other measure e q.client q.command q.time log' es w step.clean
        step.sharded (omega arith) s) [
          | inl (same, reply) ↦ subst (λ x. IsCovered base x r) (sym same) (log, there, step)
          | inr (left, next) ↦
              let both : some log' ≡ some log = sym (w.has_log) ∙ there in
              let same_log : log' ≡ log = cc in
              let kv' =
                (execute accepts other measure e q.client q.command (λ i k. pos q.time)).1.kv in
              (
                log ++ es ∷ [],
                left ∙ ap (λ x. some (x ++ es ∷ [])) same_log,
                subst (λ x. IsStep base kv' x r) (sym (all_effects-append log es))
                    (join-IsStep base e.kv kv' (all_effects log) es r r (omega arith) step
                      (later-IsStep e.kv kv' es q.time r t next)),
              )
        ]

  -- If the log accounts for the store in front of a run of requests that reach the log and that it can make
  -- good, the clock not moving during a request, at time r at the latest and in the range of `int64`, it does so behind it: what the store shows from then on
  -- is what the logged effects make of the store at the beginning, the effects set keys or delete them,
  -- every entry is a string with a deadline in range, and the shards are well formed.
  pub run-IsCovered :
      (base : KvStore) (e : Executor) (requests : List Request) (r : ℕ)
      → r < 2 ^ 63
      → IsSafeRun e requests r
      → IsCovered base e r
      → IsCovered base (run e requests) r
  unfolding run IsSafeRun
  run-IsCovered base e [] r m s k = k
  run-IsCovered base e (q ∷ requests) r m ((log, es, w), t, f, rest) k =
      run-IsCovered base (execute accepts other measure e q.client q.command (λ i k'. pos q.time)).1
        requests r m rest (step-IsCovered base e q log es r w m t f k)

  -- Take an executor with an empty log whose store holds strings with deadlines in range, and a run of
  -- requests that reach the log and that the log can make good, at time r at the latest (so no EXPIRE,
  -- PERSIST, RENAME of a key to itself, or GETSET without a value), where the clock does not move during a
  -- request: every reading of it that Execute makes for the request is the time of the request. A recovery at time r of the logged
  -- effects from the store at the beginning succeeds, and shows every later reader at every key the
  -- value, the type and the deadline that the executor shows.
  pub recovery-run :
      (e : Executor) (requests : List Request) (r : ℕ)
      → e.wal ≡ some []
      → IsClean e.kv
      → IsSharded e.kv
      → r < 2 ^ 63
      → IsSafeRun e requests r
      → (log : Log) × (kv' : KvStore) × ((run e requests).wal ≡ some log)
        × (replay_effects (λ i. pos r) 0 e.kv (all_effects log) ≡ some kv')
        × ((j : Bytes) (l : ℕ) → r < l → view kv' j l ≡ view (run e requests).kv j l)
  unfolding all_effects
  recovery-run e requests r empty c h m s =
      let (log, there, step) =
        run-IsCovered e.kv e requests r m s ([], empty, same-IsStep e.kv r c h) in
      let (kv', a, _) =
        replay_effects-view e.kv (all_effects log) r 0 [] (r + 1) h step.final m (omega arith) in
      (
        log,
        kv',
        there,
        a,
        λ j l q.
            let (kv'', b, v) =
              replay_effects-view e.kv (all_effects log) r 0 j l h step.final m q in
            let both : some kv'' ≡ some kv' = sym b ∙ a in
            let same : kv'' ≡ kv' = cc in
            subst (λ k. view k j l ≡ view (run e requests).kv j l) same
              (v ∙ sym (step.follows j l q)),
      )
