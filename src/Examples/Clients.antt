-- ===== src/Examples/Clients.antt =====
-- Clients: one watches a key that is written, one queues commands, one takes locks, one commits
-- over two shards.
use dbx_database_extreme.Base.{
  ℕ, ◌<◌, ◌≡◌, refl, true, false, Bytes, none, [], ◌∷◌, arith, codes, length, pos, lookup, insert,
  eqb,
}
use dbx_database_extreme.Transaction.Mvcc.{MvccStore, new_mvcc_store, write, read_at, history_of}
use dbx_database_extreme.Transaction.Mvcc.Sound.{read_at-write}
use dbx_database_extreme.Transaction.Watch.{watch, is_dirty}
use dbx_database_extreme.Transaction.Watch.Sound.{is_dirty-write}
use dbx_database_extreme.Transaction.Multi.{MultiManager, opened_by}
use dbx_database_extreme.Base.{List, before}
use dbx_database_extreme.Transaction.Locks.{
  lock_multi, lock_all, sorted_unique, unique, is_among, sort, sort_from, swap_down,
}
use dbx_database_extreme.Transaction.Locks.Sound.{Locking, IsBlocked, lock_multi-IsAcyclic}
use dbx_database_extreme.Base.{Option, some, ◌↔◌, ◌⊎◌, if◌then◌else◌}
use dbx_database_extreme.Transaction.TwoPhase.{
  TwoPcTransaction, TwoPcCoordinator, two_pc_prepared, two_pc_committed, prepare, commit, abort,
}
use dbx_database_extreme.Transaction.TwoPhase.Sound.{
  no_failure, acknowledged, state_of_tx, prepare_sound, commit-abort,
}

abbrev key : Bytes
key = codes "k"

abbrev versions : MvccStore ℕ
versions = (write (new_mvcc_store (pos 8)) key 10 false (pos 5)).1

versions_current : versions.current ≡ 1
unfolding write new_mvcc_store
versions_current = refl

versions_room : length (history_of versions key) < versions.max_versions_per_key
unfolding history_of write new_mvcc_store lookup insert eqb
versions_room = omega arith

read_at-write_example :
    read_at (write versions key 20 false (pos 6)).1 key 1 ≡ read_at versions key 1
read_at-write_example =
    read_at-write versions key 20 false (pos 6) key 1 (omega (arith, versions_current))
      (omega (arith, versions_current)) versions_room

is_dirty-write_example :
    is_dirty (watch [] 7 (key ∷ []) versions.current) 7 (write versions key 20 false (pos 6)).1
    ≡ true
unfolding eqb
is_dirty-write_example =
    is_dirty-write versions [] 7 (key ∷ []) key 20 false (pos 6) refl
      (omega (arith, versions_current)) (unfold write new_mvcc_store in omega arith)

abbrev idle : MultiManager ℕ ℕ
idle = []

abbrev busy : MultiManager ℕ ℕ
busy = (7, opened_by 7) ∷ []

abbrev taken : List Bytes
taken = codes "b" ∷ codes "a" ∷ codes "b" ∷ []

taken-sorted : (lock_multi taken).0 ≡ lock_all (codes "a" ∷ codes "b" ∷ [])
unfolding lock_multi lock_all sorted_unique unique is_among sort sort_from swap_down before eqb
taken-sorted = refl

abbrev halfway : Locking
halfway = record {
  keys = taken;
  held = codes "a" ∷ [];
  wanted = codes "b";
  rest = [];
  in_order = taken-sorted;
}

lock_multi-IsAcyclic_example : ¬ IsBlocked halfway halfway
lock_multi-IsAcyclic_example = lock_multi-IsAcyclic halfway

abbrev transfer : TwoPcTransaction
transfer = record {
  id = codes "t";
  state = two_pc_prepared;
  shards = codes "a" ∷ codes "b" ∷ [];
  prepare_ack = [];
}

abbrev coordinator : TwoPcCoordinator
coordinator = (codes "t", transfer) ∷ []

transfer_known : lookup (codes "t") coordinator ≡ some transfer
unfolding lookup eqb
transfer_known = refl

-- Shard b fails.
abbrev answers : Bytes → Option ℕ
answers s = if eqb s (codes "b") then some 7 else none

abbrev as_listed : List Bytes → List Bytes
as_listed shards = shards

b_among : is_among (codes "b") transfer.shards ≡ true
unfolding is_among eqb
b_among = refl

prepare_sound_example :
    (((prepare coordinator (codes "t") answers as_listed).0 ≡ none)
      ↔ (no_failure answers transfer.shards ≡ true))
    × ((no_failure answers transfer.shards ≡ false)
        ⊎ (acknowledged
              (lookup (codes "t") (prepare coordinator (codes "t") answers as_listed).1)
              (codes "b")
            ≡ some true))
prepare_sound_example =
    prepare_sound coordinator (codes "t") answers as_listed transfer (codes "b") transfer_known
      (λ k. refl) b_among

commit-abort_example :
    state_of_tx (
      lookup
        (codes "t")
        (commit
          (abort coordinator (codes "t") answers as_listed).1
          (codes "t")
          answers
          as_listed).1)
    ≡ some two_pc_committed
commit-abort_example =
    commit-abort coordinator (codes "t") answers answers as_listed transfer transfer_known
