-- ===== src/Transaction/Multi/Sound.antt =====
-- What EXEC returns.
use dbx_database_extreme.Base.{
  ℕ, ◌≡◌, refl, ◌∙◌, false, Option, none, some, List, [], ◌∷◌, ◌++◌, arith, id_lookup, id_insert,
  id_lookup-id_insert, id_lookup-id_erase,
}
use mathlib.Core.List.{append_assoc, append-nil}
use dbx_database_extreme.Transaction.Multi.{
  tx_state_error, Transaction, MultiManager, opened_by, is_active, active, begin, queue_command,
  queue_found, set_error, set_error_found, commands, refused, aborted, exec, exec_found, taken,
  queue_all,
}

module _ {C E : Type 0} (client : ℕ) where
  id_lookup-queue_command :
      (m : MultiManager C E) (tx : Transaction C E) (cmd : C)
      → id_lookup client m ≡ some tx
      → id_lookup client (queue_command m client cmd)
        ≡ some (record tx { queue = tx.queue ++ cmd ∷ [] })
  unfolding queue_command
  id_lookup-queue_command m tx cmd h =
      rw (h, queue_found)
        (id_lookup-id_insert client client (record tx { queue = tx.queue ++ cmd ∷ [] }) m
          ∙ ground arith)

  id_lookup-queue_all :
      (m : MultiManager C E) (tx : Transaction C E) (cmds : List C)
      → id_lookup client m ≡ some tx
      → id_lookup client (queue_all m client cmds) ≡ some (record tx { queue = tx.queue ++ cmds })
  unfolding queue_all
  id_lookup-queue_all m tx [] h = rw (append-nil tx.queue) h
  id_lookup-queue_all m tx (cmd ∷ cmds) h =
      id_lookup-queue_all (queue_command m client cmd) (record tx { queue = tx.queue ++ cmd ∷ [] })
        cmds (id_lookup-queue_command m tx cmd h)
      ∙ rw append_assoc

  -- For a client with no open transaction: MULTI is accepted, EXEC behind any commands that
  -- are queued returns those commands in order, and the client is no longer in a transaction.
  exec-queue_all :
      (m : MultiManager C E) (cmds : List C)
      → is_active m client ≡ false
      → ((begin m client).0 ≡ none)
        × ((exec (queue_all (begin m client).1 client cmds) client).0 ≡ commands cmds)
        × (is_active (exec (queue_all (begin m client).1 client cmds) client).1 client ≡ false)
  unfolding begin exec
  exec-queue_all m cmds idle =
      let there =
        id_lookup-queue_all (id_insert client (opened_by client) m) (opened_by client) cmds
          (id_lookup-id_insert client client (opened_by client) m ∙ ground arith) in
      rw idle (
        refl,
        rw (there, exec_found, taken),
        rw (there, exec_found)
            (unfold is_active active in
              rw
                (id_lookup-id_erase client client
                  (queue_all (id_insert client (opened_by client) m) client cmds))
                (ground arith)),
      )

  -- Once an error is set on a client's transaction, EXEC returns it and no command, whatever
  -- is queued behind.
  exec-set_error :
      (m : MultiManager C E) (tx : Transaction C E) (e : Option E) (cmds : List C)
      → id_lookup client m ≡ some tx
      → (exec (queue_all (set_error m client e) client cmds) client).0 ≡ refused (aborted e)
  unfolding exec set_error
  exec-set_error m tx e cmds h =
      let failed_tx : Transaction C E = record tx { state = tx_state_error; error = e } in
      let there =
        id_lookup-queue_all (id_insert client failed_tx m) failed_tx cmds
          (id_lookup-id_insert client client failed_tx m ∙ ground arith) in
      rw (h, set_error_found) (rw (there, exec_found, taken))
