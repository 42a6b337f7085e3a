-- ===== src/Transaction/TwoPhase/Sound.antt =====
-- When Prepare goes through and what it leaves, and what a decision does.
use dbx_database_extreme.Base.{
  ◌≡◌, refl, sym, ◌∙◌, ap, subst, Bool, true, false, Bytes, Option, none, some, List, [], ◌∷◌, Dict,
  lookup, insert, eqb, eqb_sound, eqb_refl, Bool-cases, Option-cases, inl, inr, ◌↔◌, ◌⊎◌,
  lookup-insert,
}
use dbx_database_extreme.Transaction.Locks.{is_among}
use dbx_database_extreme.Transaction.TwoPhase.{
  TwoPcTransaction, TwoPcCoordinator, TwoPcError, TwoPcState, Ended, call_all, acknowledge,
  first_error, failed_by, prepare, prepare_failed, two_pc_committed, two_pc_aborted, commit, abort,
  broadcast,
}

-- The acknowledgement of a shard in a transaction that the coordinator knows.
abbrev pub acknowledged : Option TwoPcTransaction → Bytes → Option Bool
acknowledged none s = none
acknowledged (some tx) s = lookup s tx.prepare_ack

abbrev pub state_of_tx : Option TwoPcTransaction → Option TwoPcState
state_of_tx none = none
state_of_tx (some tx) = some tx.state

found_again :
    (c : TwoPcCoordinator) (tx_id : Bytes) (tx : TwoPcTransaction)
    → lookup tx_id (insert tx_id tx c) ≡ some tx
found_again c tx_id tx = rw (lookup-insert tx_id tx_id tx c, eqb_refl tx_id) refl

abbrev decided_tx : TwoPcTransaction → TwoPcState → TwoPcTransaction
decided_tx tx final_state = record {
  id = tx.id;
  state = final_state;
  shards = tx.shards;
  prepare_ack = tx.prepare_ack;
}

module _ {E : Type 0} where
  abbrev answered_by : Ended E → List Bytes
  answered_by [] = []
  answered_by ((s, r) ∷ ended) = s ∷ answered_by ended

  acknowledged_keeps :
      (ended : Ended E) (acks : Dict Bool) (s : Bytes)
      → lookup s acks ≡ some true
      → lookup s (acknowledge ended acks) ≡ some true
  unfolding acknowledge
  acknowledged_keeps [] acks s h = h
  acknowledged_keeps ((j, none) ∷ ended) acks s h =
      acknowledged_keeps ended (insert j true acks) s (elim (Bool-cases (eqb j s)) [
        | inl e ↦ rw (lookup-insert j s true acks, e) refl
        | inr e ↦ rw (lookup-insert j s true acks, e) h
      ])
  acknowledged_keeps ((j, some e) ∷ ended) acks s h = acknowledged_keeps ended acks s h

  -- No call has failed.
  abbrev none_failed : Ended E → Bool
  none_failed [] = true
  none_failed ((s, none) ∷ ended) = none_failed ended
  none_failed ((s, some e) ∷ ended) = false

  acknowledged_all :
      (ended : Ended E) (acks : Dict Bool) (s : Bytes)
      → none_failed ended ≡ true
      → is_among s (answered_by ended) ≡ true
      → lookup s (acknowledge ended acks) ≡ some true
  unfolding acknowledge is_among
  acknowledged_all [] acks s n h = absurd (cc)
  acknowledged_all ((j, some e) ∷ ended) acks s n h = absurd (cc)
  acknowledged_all ((j, none) ∷ ended) acks s n h = elim (Bool-cases (eqb j s)) [
    | inl e ↦
        acknowledged_keeps ended (insert j true acks) s (rw (lookup-insert j s true acks, e) refl)
    | inr e ↦ acknowledged_all ended (insert j true acks) s n (rw e at h)
  ]

  first_error-none : (ended : Ended E) → none_failed ended ≡ true → first_error ended ≡ none
  unfolding first_error
  first_error-none [] h = refl
  first_error-none ((s, none) ∷ ended) h = first_error-none ended h
  first_error-none ((s, some e) ∷ ended) h = absurd (cc)

  none-first_error :
      (f : E → TwoPcError E) (ended : Ended E)
      → failed_by f (first_error ended) ≡ none
      → none_failed ended ≡ true
  unfolding first_error failed_by
  none-first_error f [] h = refl
  none-first_error f ((s, none) ∷ ended) h = none-first_error f ended h
  none-first_error f ((s, some e) ∷ ended) h = absurd (cc)

  abbrev with_acks : TwoPcTransaction → Ended E → TwoPcTransaction
  with_acks tx ended = record {
    id = tx.id;
    state = tx.state;
    shards = tx.shards;
    prepare_ack = acknowledge ended tx.prepare_ack;
  }

  prepare-known :
      (c : TwoPcCoordinator) (tx_id : Bytes) (f : Bytes → Option E)
      (order : List Bytes → List Bytes) (tx : TwoPcTransaction)
      → lookup tx_id c ≡ some tx
      → prepare c tx_id f order ≡ (
        failed_by prepare_failed (first_error (call_all f (order tx.shards))),
        insert tx_id (with_acks tx (call_all f (order tx.shards))) c,
      )
  unfolding prepare
  prepare-known c tx_id f order tx known = rw (known, prepare) refl

  answered_by-call_all : (f : Bytes → Option E) (xs : List Bytes) → answered_by (call_all f xs) ≡ xs
  unfolding call_all
  answered_by-call_all f [] = refl
  answered_by-call_all f (x ∷ xs) = ap (λ ys. x ∷ ys) (answered_by-call_all f xs)

  -- No call for one of the shards fails.
  abbrev pub no_failure : (Bytes → Option E) → List Bytes → Bool
  no_failure f xs = none_failed (call_all f xs)

  no_failure-each :
      (f : Bytes → Option E) (xs : List Bytes) (k : Bytes)
      → no_failure f xs ≡ true
      → is_among k xs ≡ true
      → f k ≡ none
  unfolding call_all is_among
  no_failure-each f [] k ok h = absurd (cc)
  no_failure-each f (x ∷ xs) k ok h = elim (Option-cases (f x)) [
    | inl e ↦ elim (Bool-cases (eqb x k)) [
      | inl same ↦ subst (λ y. f y ≡ none) (eqb_sound x k same) e
      | inr other ↦ no_failure-each f xs k (rw e at ok) (rw other at h)
    ]
    | inr (v, e) ↦ let no : false ≡ true = rw e at ok in absurd (cc)
  ]

  each-no_failure :
      (f : Bytes → Option E) (xs : List Bytes)
      → ((k : Bytes) → is_among k xs ≡ true → f k ≡ none)
      → no_failure f xs ≡ true
  unfolding call_all is_among
  each-no_failure f [] h = refl
  each-no_failure f (x ∷ xs) h =
      let first = h x (rw (eqb_refl x) refl) in
      rw first (
        each-no_failure f xs
          (λ k there. h k (elim (Bool-cases (eqb x k)) [ inl e ↦ rw e refl | inr e ↦ rw e there ])))

  -- For a transaction that the coordinator knows, Prepare succeeds exactly when no call for one of its shards
  -- fails, in whatever order the calls end, and every shard has then acknowledged. The order is one in which
  -- all shards are called and no others.
  pub prepare_sound :
      (c : TwoPcCoordinator) (tx_id : Bytes) (f : Bytes → Option E)
      (order : List Bytes → List Bytes) (tx : TwoPcTransaction) (s : Bytes)
      → lookup tx_id c ≡ some tx
      → ((k : Bytes) → is_among k (order tx.shards) ≡ is_among k tx.shards)
      → is_among s tx.shards ≡ true
      → (((prepare c tx_id f order).0 ≡ none) ↔ (no_failure f tx.shards ≡ true))
        × ((no_failure f tx.shards ≡ false)
            ⊎ (acknowledged (lookup tx_id (prepare c tx_id f order).1) s ≡ some true))
  unfolding failed_by
  prepare_sound c tx_id f order tx s known all h =
      let ended : Ended E = call_all f (order tx.shards) in
      let answer = prepare-known c tx_id f order tx known in
      let result = ap (λ r. r.0) answer in
      let left = ap (λ r. r.1) answer in
      let there : no_failure f tx.shards ≡ true → no_failure f (order tx.shards) ≡ true = λ ok.
        each-no_failure f (order tx.shards)
          (λ k m. no_failure-each f tx.shards k ok (sym (all k) ∙ m)) in
      let back : no_failure f (order tx.shards) ≡ true → no_failure f tx.shards ≡ true = λ ok.
        each-no_failure f tx.shards (λ k m. no_failure-each f (order tx.shards) k ok (all k ∙ m)) in
      (
        (
          λ ok. back (none-first_error prepare_failed ended (sym result ∙ ok)),
          λ ok. result ∙ ap (failed_by prepare_failed) (first_error-none ended (there ok)),
        ),
        elim (Bool-cases (no_failure f tx.shards)) [
          | inl ok ↦ inr (
              ap (λ m. acknowledged (lookup tx_id m) s) left
              ∙ ap (λ o. acknowledged o s) (found_again c tx_id (with_acks tx ended))
              ∙ acknowledged_all ended tx.prepare_ack s (there ok)
                  (ap (is_among s) (answered_by-call_all f (order tx.shards)) ∙ all s ∙ h))
          | inr bad ↦ inl bad
        ],
      )

  broadcast-known :
      (c : TwoPcCoordinator) (tx_id : Bytes) (f : Bytes → Option E)
      (order : List Bytes → List Bytes) (final_state : TwoPcState) (tx : TwoPcTransaction)
      → lookup tx_id c ≡ some tx
      → lookup tx_id (broadcast c tx_id f order final_state).1 ≡ some (decided_tx tx final_state)
  unfolding broadcast
  broadcast-known c tx_id f order final_state tx known =
      rw (known, broadcast) (found_again c tx_id (decided_tx tx final_state))

  -- The decision is not final: Commit turns a transaction that was aborted into a committed one, whatever
  -- the shards answer.
  pub commit-abort :
      (c : TwoPcCoordinator) (tx_id : Bytes) (f g : Bytes → Option E)
      (order : List Bytes → List Bytes) (tx : TwoPcTransaction)
      → lookup tx_id c ≡ some tx
      → state_of_tx (lookup tx_id (commit (abort c tx_id f order).1 tx_id g order).1)
        ≡ some two_pc_committed
  unfolding commit abort
  commit-abort c tx_id f g order tx known = ap state_of_tx (
      broadcast-known (abort c tx_id f order).1 tx_id g order two_pc_committed
        (decided_tx tx two_pc_aborted) (broadcast-known c tx_id f order two_pc_aborted tx known))
