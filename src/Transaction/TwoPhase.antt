-- ===== src/Transaction/TwoPhase.antt =====
-- internal/transaction/2pc.go: the coordinator of two-phase commit. The calls that Prepare and its kin make
-- for the shards run side by side; what each returns and the order in which they end are parameters.
pub mod Sound
use dbx_database_extreme.Base.{
  Bool, true, Bytes, Option, none, some, List, [], ◌∷◌, Dict, lookup, insert,
}

pub data TwoPcState : Type 0 where
  two_pc_prepared two_pc_committed two_pc_aborted : TwoPcState

pub record TwoPcTransaction : Type 0 where
  pub id : Bytes
  pub state : TwoPcState
  pub shards : List Bytes
  pub prepare_ack : Dict Bool

abbrev pub TwoPcCoordinator : Type 0
TwoPcCoordinator = Dict TwoPcTransaction

-- `E` is `error`; none is nil.
pub data TwoPcError (E : Type 0) : Type 0 where
  already_exists unknown_transaction : Bytes → TwoPcError E
  prepare_failed : E → TwoPcError E
  shard_failed : E → TwoPcError E

abbrev pub Ended : Type 0 → Type 0
Ended E = List (Bytes × Option E)

module _ {E : Type 0} where
  unfoldable pub begin_two_pc :
      TwoPcCoordinator → Bytes → List Bytes → Option (TwoPcError E) × TwoPcCoordinator
  begin_two_pc c tx_id shards = elim (lookup tx_id c) [
    | some tx ↦ (some (already_exists tx_id), c)
    | none ↦ (
      none,
      insert tx_id
          (record { id = tx_id; state = two_pc_prepared; shards = shards; prepare_ack = [] }) c,
    )
  ]

  -- The calls for the shards, with what they return.
  unfoldable pub call_all : (Bytes → Option E) → List Bytes → Ended E
  call_all f [] = []
  call_all f (s ∷ shards) = (s, f s) ∷ call_all f shards

  -- The shards that have answered without an error.
  unfoldable pub acknowledge : Ended E → Dict Bool → Dict Bool
  acknowledge [] acks = acks
  acknowledge ((s, none) ∷ ended) acks = acknowledge ended (insert s true acks)
  acknowledge ((s, some e) ∷ ended) acks = acknowledge ended acks

  -- The error of the call that fails first.
  unfoldable pub first_error : Ended E → Option E
  first_error [] = none
  first_error ((s, none) ∷ ended) = first_error ended
  first_error ((s, some e) ∷ ended) = some e

  unfoldable pub failed_by : (E → TwoPcError E) → Option E → Option (TwoPcError E)
  failed_by f none = none
  failed_by f (some e) = some (f e)

  unfoldable pub prepare :
      TwoPcCoordinator
      → Bytes
      → (Bytes → Option E)
      → (List Bytes → List Bytes)
      → Option (TwoPcError E) × TwoPcCoordinator
  unfolding call_all acknowledge first_error failed_by
  prepare c tx_id f order = elim (lookup tx_id c) [
    | none ↦ (some (unknown_transaction tx_id), c)
    | some tx ↦ (
      failed_by prepare_failed (first_error (call_all f (order tx.shards))),
      insert tx_id
          (record {
            id = tx.id;
            state = tx.state;
            shards = tx.shards;
            prepare_ack = acknowledge (call_all f (order tx.shards)) tx.prepare_ack;
          })
          c,
    )
  ]

  unfoldable pub broadcast :
      TwoPcCoordinator
      → Bytes
      → (Bytes → Option E)
      → (List Bytes → List Bytes)
      → TwoPcState
      → Option (TwoPcError E) × TwoPcCoordinator
  unfolding call_all first_error failed_by
  broadcast c tx_id f order final_state = elim (lookup tx_id c) [
    | none ↦ (some (unknown_transaction tx_id), c)
    | some tx ↦ (
      failed_by shard_failed (first_error (call_all f (order tx.shards))),
      insert tx_id
          (record {
            id = tx.id;
            state = final_state;
            shards = tx.shards;
            prepare_ack = tx.prepare_ack;
          })
          c,
    )
  ]

  unfoldable pub commit :
      TwoPcCoordinator
      → Bytes
      → (Bytes → Option E)
      → (List Bytes → List Bytes)
      → Option (TwoPcError E) × TwoPcCoordinator
  unfolding broadcast
  commit c tx_id f order = broadcast c tx_id f order two_pc_committed

  unfoldable pub abort :
      TwoPcCoordinator
      → Bytes
      → (Bytes → Option E)
      → (List Bytes → List Bytes)
      → Option (TwoPcError E) × TwoPcCoordinator
  unfolding broadcast
  abort c tx_id f order = broadcast c tx_id f order two_pc_aborted
