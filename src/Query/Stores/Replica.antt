-- ===== src/Query/Stores/Replica.antt =====
-- What clients can change by commands that only read, or on a read-only node.
use dbx_database_extreme.Base.{
  ℕ, ◌≡◌, refl, sym, ap, ◌∙◌, ◌⊎◌, inl, inr, Bool, true, false, ◌&&◌, not, Bytes, Option, none,
  some, List, lookup, ℤ, is_some, if◌then◌else◌, Bool-cases,
}
use dbx_database_extreme.Engine.Kv.{KvStore}
use dbx_database_extreme.Persistence.Wal.Encode.{WalEffect}
use dbx_database_extreme.Query.Command.{
  Command, CommandInfo, normalized, lookup_info, registered, passes, supported_in_durable_v1,
}
use dbx_database_extreme.Query.Verb.{Verb, verbs, verb_of, or_other}
use dbx_database_extreme.Transaction.Multi.{is_active}
use dbx_database_extreme.Query.Executor.{Executor, Log, Outcome}
use dbx_database_extreme.Query.Dispatch.{refuse, dispatch, dispatch_verb}
use dbx_database_extreme.Query.Execute.{
  execute, recovered, admit, admit_known, is_mutation, is_immediate,
}
use dbx_database_extreme.Query.Stores.{StoreVerb, dispatch_stores, dispatch_found, store_verbs}
use dbx_database_extreme.Query.Stores.Reads.{
  reads, reads_store, agrees-lookup, verbs-agrees, store_verbs-agrees, verb-IsSame,
  store_verb-IsSame,
}

-- A command with a handler that is modelled.
abbrev pub IsHandled : Command → Type 0
IsHandled cmd =
    ((v : Verb) × (lookup (normalized cmd) verbs ≡ some v))
    ⊎ ((lookup (normalized cmd) verbs ≡ none)
        × ((v : StoreVerb) × (lookup (normalized cmd) store_verbs ≡ some v)))

abbrev read_only_name : Bytes → Bool
read_only_name name = registered (λ i. i.read_only) name

module _ (accepts : Log → List WalEffect → Bool) (shuffle : List Bytes → List Bytes)
    (rest : Executor → Command → (ℕ → ℤ) → Outcome) (measure : KvStore → ℤ) (e : Executor)
    (cmd : Command) where
  abbrev others : Executor → Command → (ℕ → ℤ) → Outcome
  others = dispatch_stores shuffle rest

  dispatch-IsSame :
      (clock : ℕ → ℤ)
      → IsHandled cmd
      → read_only_name (normalized cmd) ≡ true
      → (dispatch accepts others e cmd clock).1.kv ≡ e.kv
  unfolding dispatch verb_of or_other dispatch_stores
  dispatch-IsSame clock (inl (v, known)) r =
      ap (λ o. (dispatch_verb accepts others (or_other o) e cmd clock).1.kv) known
      ∙ verb-IsSame accepts shuffle rest e cmd clock v
          (agrees-lookup reads verbs (normalized cmd) v verbs-agrees known r)
  dispatch-IsSame clock (inr (unknown, (v, known))) r =
      ap (λ o. (dispatch_verb accepts others (or_other o) e cmd clock).1.kv) unknown
      ∙ ap (λ o. (dispatch_found shuffle rest o e cmd clock).1.kv) known
      ∙ store_verb-IsSame accepts shuffle rest e cmd clock v
          (agrees-lookup reads_store store_verbs (normalized cmd) v store_verbs-agrees known r)

  recovered-kv : (o : Outcome) → o.1.kv ≡ e.kv → (recovered o).1.kv ≡ e.kv
  unfolding recovered
  recovered-kv (none, f) h = h
  recovered-kv (some frames, f) h = h

  -- A node that reads runs the handler, whether or not it has a log.
  quiet :
      (r w d : Bool) (p q s : Outcome)
      → s.1.kv ≡ e.kv
      → (if r && false then p else if w && (d && false) then q else s).1.kv ≡ e.kv
  quiet true true true p q s h = h
  quiet true true false p q s h = h
  quiet true false d p q s h = h
  quiet false true true p q s h = h
  quiet false true false p q s h = h
  quiet false false d p q s h = h

  admit_known-IsSame :
      (i : CommandInfo) (clocks : ℕ → ℕ → ℤ)
      → IsHandled cmd
      → ((i.read_only ≡ true) → read_only_name (normalized cmd) ≡ true)
      → (e.read_only ≡ true) ⊎ (i.read_only ≡ true)
      → (admit_known accepts others measure e i cmd clocks).1.kv ≡ e.kv
  unfolding admit_known refuse is_mutation
  admit_known-IsSame i clocks known marked why =
      elim (Bool-cases (is_some e.wal && not (supported_in_durable_v1 (normalized cmd)))) [
        | inl a ↦ rw a refl
        | inr a ↦ elim (Bool-cases i.read_only) [
          | inl b ↦
              rw (a, b)
                (quiet e.read_only (is_some e.wal) i.durable_v1 _ _ _
                  (dispatch-IsSame (clocks 2) known (marked b)))
          | inr b ↦ elim why [ inl c ↦ rw (a, b, c) refl | inr c ↦ absurd (cc) ]
        ]
      ]

  admit-IsSame :
      (o : Option CommandInfo) (clocks : ℕ → ℕ → ℤ)
      → IsHandled cmd
      → lookup_info (normalized cmd) ≡ o
      → (e.read_only ≡ true) ⊎ (read_only_name (normalized cmd) ≡ true)
      → (admit accepts others measure e o cmd clocks).1.kv ≡ e.kv
  unfolding admit refuse registered
  admit-IsSame none clocks known h why = refl
  admit-IsSame (some i) clocks known h why =
      let same : read_only_name (normalized cmd) ≡ i.read_only = ap (passes (λ i. i.read_only)) h in
      admit_known-IsSame i clocks known (λ r. same ∙ r)
        (elim why [ inl a ↦ inl a | inr b ↦ inr (sym same ∙ b) ])

  -- A command on keys, strings, hashes, lists or sets leaves the store as it is, whatever it answers and
  -- whether or not it panics, if the registry marks it as a read or the node is read-only.
  pub execute_unchanged :
      (client : ℕ) (clocks : ℕ → ℕ → ℤ)
      → IsHandled cmd
      → (e.read_only ≡ true) ⊎ (registered (λ i. i.read_only) (normalized cmd) ≡ true)
      → (execute accepts others measure e client cmd clocks).1.kv ≡ e.kv
  unfolding execute
  execute_unchanged client clocks known why =
      elim (Bool-cases (is_active e.multi client && not (is_immediate cmd))) [
        | inl a ↦ rw a refl
        | inr a ↦ rw a (
            recovered-kv (admit accepts others measure e (lookup_info (normalized cmd)) cmd clocks)
              (admit-IsSame (lookup_info (normalized cmd)) clocks known refl why))
      ]
