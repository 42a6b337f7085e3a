-- ===== src/Transaction/Multi.antt =====
-- internal/transaction/multi.go: the commands that a client queues between MULTI and EXEC. A
-- transaction is reached by its client's number only, so its pointer is an entry of the map.
pub mod Sound
use dbx_database_extreme.Base.{
  ℕ, Bool, true, false, ◌==◌, ◌≡◌, Option, none, some, List, [], ◌∷◌, ◌++◌, id_lookup, id_insert,
  id_erase, if◌then◌else◌,
}

pub data TxState : Type 0 where
  tx_state_none tx_state_open tx_state_error : TxState

-- `C` is `*protocol.Command`, `E` is `error`.
pub record Transaction (C E : Type 0) : Type 0 where
  pub client_id : ℕ
  pub state : TxState
  pub queue : List C
  pub error : Option E

pub data TxError (E : Type 0) : Type 0 where
  nested_multi exec_without_multi discard_without_multi : TxError E
  -- The error that was set, nil included.
  aborted : Option E → TxError E

abbrev pub is_open : TxState → Bool
is_open tx_state_open = true
is_open tx_state_none = false
is_open tx_state_error = false

abbrev pub MultiManager : Type 0 → Type 0 → Type 0
MultiManager C E = List (ℕ × Transaction C E)

-- What EXEC returns.
pub data Executed (C E : Type 0) : Type 0 where
  commands : List C → Executed C E
  refused : TxError E → Executed C E

module _ {C E : Type 0} where
  abbrev pub opened_by : ℕ → Transaction C E
  opened_by client = record { client_id = client; state = tx_state_open; queue = []; error = none }

  unfoldable pub active : Option (Transaction C E) → Bool
  active none = false
  active (some tx) = is_open tx.state

  unfoldable pub is_active : MultiManager C E → ℕ → Bool
  unfolding active
  is_active m client = active (id_lookup client m)

  -- none: no error.
  unfoldable pub begin : MultiManager C E → ℕ → Option (TxError E) × MultiManager C E
  unfolding is_active
  begin m client =
      if is_active m client
      then (some nested_multi, m)
      else (none, id_insert client (opened_by client) m)

  unfoldable pub queue_found :
      MultiManager C E → ℕ → Option (Transaction C E) → C → MultiManager C E
  queue_found m client none cmd = m
  queue_found m client (some tx) cmd =
      id_insert client (record tx { queue = tx.queue ++ cmd ∷ [] }) m

  unfoldable pub queue_command : MultiManager C E → ℕ → C → MultiManager C E
  unfolding queue_found
  queue_command m client cmd = queue_found m client (id_lookup client m) cmd

  unfoldable pub set_error_found :
      MultiManager C E → ℕ → Option (Transaction C E) → Option E → MultiManager C E
  set_error_found m client none e = m
  set_error_found m client (some tx) e =
      id_insert client (record tx { state = tx_state_error; error = e }) m

  unfoldable pub set_error : MultiManager C E → ℕ → Option E → MultiManager C E
  unfolding set_error_found
  set_error m client e = set_error_found m client (id_lookup client m) e

  unfoldable pub taken : Transaction C E → Executed C E
  taken tx = elim tx.state [ tx_state_error ↦ refused (aborted tx.error) | _ ↦ commands tx.queue ]

  unfoldable pub exec_found :
      MultiManager C E → ℕ → Option (Transaction C E) → Executed C E × MultiManager C E
  unfolding taken
  exec_found m client none = (refused exec_without_multi, m)
  exec_found m client (some tx) = (taken tx, id_erase client m)

  unfoldable pub exec : MultiManager C E → ℕ → Executed C E × MultiManager C E
  unfolding exec_found
  exec m client = exec_found m client (id_lookup client m)

  unfoldable pub discard_found :
      MultiManager C E → ℕ → Option (Transaction C E) → Option (TxError E) × MultiManager C E
  discard_found m client none = (some discard_without_multi, m)
  discard_found m client (some tx) = (none, id_erase client m)

  unfoldable pub discard : MultiManager C E → ℕ → Option (TxError E) × MultiManager C E
  unfolding discard_found
  discard m client = discard_found m client (id_lookup client m)

  -- A client that queues one command after the other.
  unfoldable pub queue_all : MultiManager C E → ℕ → List C → MultiManager C E
  queue_all m client [] = m
  queue_all m client (cmd ∷ cmds) = queue_all (queue_command m client cmd) client cmds
