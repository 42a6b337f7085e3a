-- ===== src/Query/Admitted.antt =====
-- The guards of `Execute` and the commands that are prepared.
use dbx_database_extreme.Base.{
  ℕ, ◌≡◌, refl, ◌∙◌, ap, Bool, true, false, not, ◌&&◌, ◌||◌, Bytes, some, List, arith, is_some, ℤ,
  if◌then◌else◌,
}
use dbx_database_extreme.Engine.Kv.{KvStore}
use dbx_database_extreme.Persistence.Wal.Encode.{WalEffect}
use dbx_database_extreme.Transaction.Multi.{is_active}
use dbx_database_extreme.Query.Command.{
  Command, CommandInfo, normalized, lookup_info, supported_in_durable_v1, registered, passes,
}
use dbx_database_extreme.Query.Verb.{verb_of}
use dbx_database_extreme.Query.Effects.{prepare_verb}
use dbx_database_extreme.Query.Executor.{Executor, Log, Outcome}
use dbx_database_extreme.Query.Execute.{
  execute, admit, admit_known, is_mutation, run_durable, run_prepared, recovered,
}
use dbx_database_extreme.Query.Registered.{prepare-IsDurable, IsDurable-lookup_info}

-- The third test of three.
chosen :
    (a b d : Bool) (p q r s : Outcome)
    → a ≡ false
    → b ≡ false
    → d ≡ true
    → (if a then p else if b then q else if d then r else s) ≡ r
chosen true b d p q r s h k l = absurd (cc)
chosen false true d p q r s h k l = absurd (cc)
chosen false false true p q r s h k l = refl
chosen false false false p q r s h k l = absurd (cc)

supported :
    (name : Bytes) (i : CommandInfo)
    → lookup_info name ≡ some i
    → i.durable_v1 ≡ true
    → supported_in_durable_v1 name ≡ true
unfolding supported_in_durable_v1 registered
supported name i known durable =
    ap (passes (λ i. i.read_only || i.durable_v1)) known ∙ unfold passes in ground (arith, durable)

module _ (accepts : Log → List WalEffect → Bool) (other : Executor → Command → (ℕ → ℤ) → Outcome)
    (measure : KvStore → ℤ) where
  -- With what the registry says of the command.
  execute-known :
      (e : Executor) (client : ℕ) (cmd : Command) (clocks : ℕ → ℕ → ℤ) (log : Log)
      (es : List WalEffect) (i : CommandInfo)
      → is_active e.multi client ≡ false
      → lookup_info (normalized cmd) ≡ some i
      → i.durable_v1 ≡ true
      → i.read_only ≡ false
      → e.read_only ≡ false
      → e.wal ≡ some log
      → prepare_verb (verb_of cmd) e.kv cmd (clocks 0) ≡ some es
      → execute accepts other measure e client cmd clocks
        ≡ recovered (run_prepared accepts other measure e log cmd (some es) clocks)
  unfolding execute admit admit_known run_durable
  execute-known e client cmd clocks log es i outside known durable writes takes_writes has_log
        prepared =
      let logs : is_some e.wal ≡ true = ap is_some has_log in
      let mutates : is_mutation e i ≡ true =
        unfold is_mutation in ground (arith, logs, durable, writes) in
      let unsupported_not : (is_some e.wal && not (supported_in_durable_v1 (normalized cmd)))
          ≡ false =
        ground (arith, logs, supported (normalized cmd) i known durable) in
      let writable : (e.read_only && not i.read_only) ≡ false = ground (arith, takes_writes) in
      rw (outside, known)
        (ap recovered (
          chosen _ _ _ _ _ _ _ unsupported_not writable mutates
          ∙ (ap (λ o. run_durable accepts other measure e o cmd clocks) has_log
              ∙ ap (λ o. run_prepared accepts other measure e log cmd o clocks) prepared)))

  -- On a node that has a log and takes writes, a command for which `prepareDurableEffects` prepares effects, of
  -- a client without an open transaction, passes every guard of `Execute`: it is run with these effects, whatever
  -- the readings of the clock.
  pub execute-run_prepared :
      (e : Executor) (client : ℕ) (cmd : Command) (clocks : ℕ → ℕ → ℤ) (log : Log)
      (es : List WalEffect)
      → is_active e.multi client ≡ false
      → e.wal ≡ some log
      → e.read_only ≡ false
      → prepare_verb (verb_of cmd) e.kv cmd (clocks 0) ≡ some es
      → execute accepts other measure e client cmd clocks
        ≡ recovered (run_prepared accepts other measure e log cmd (some es) clocks)
  execute-run_prepared e client cmd clocks log es outside has_log takes_writes prepared =
      let marks = prepare-IsDurable cmd e.kv (clocks 0) es prepared in
      let (i, known, durable, writes) = IsDurable-lookup_info (normalized cmd) marks in
      execute-known e client cmd clocks log es i outside known durable writes takes_writes has_log
        prepared
