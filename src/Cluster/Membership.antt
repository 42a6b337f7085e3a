-- ===== src/Cluster/Membership.antt =====
-- internal/cluster/membership.go and internal/query/router.go: nodes that join and leave, their heartbeats, and
-- the redirects to the node of a key. A time is its nanoseconds; a method is one step.
use dbx_database_extreme.Base.{
  ℕ, Option, none, some, Bytes, List, [], ◌∷◌, Dict, insert, erase, eqb, ℤ, pos, ◌-ℤ◌, ltb_ℤ,
  if◌then◌else◌,
}
use dbx_database_extreme.Util.Slot.{hash_slot}
use dbx_database_extreme.Cluster.Ring.{
  Ring, add_node, remove_node, node_for_slot, node_for_key, redirect,
}

pub record Membership : Type 0 where
  pub ring : Ring
  pub heartbeats : Dict ℤ
  pub timeout : ℤ

unfoldable pub new_membership : Ring → ℤ → Membership
new_membership ring timeout = record { ring = ring; heartbeats = []; timeout = timeout }

-- Heartbeat
unfoldable pub heartbeat : Membership → Bytes → ℤ → Membership
heartbeat m node_id now = record m { heartbeats = insert node_id now m.heartbeats }

module _ (sort : (ℕ → Bytes) → List ℕ → List ℕ) where
  unfoldable pub join : Membership → ℕ → ℤ → Membership
  join m p now = record m {
    ring = add_node sort m.ring p;
    heartbeats = insert (m.ring.heap p).id now m.heartbeats;
  }

  unfoldable pub leave : Membership → Bytes → Membership
  leave m node_id = record m {
    ring = remove_node sort m.ring node_id;
    heartbeats = erase node_id m.heartbeats;
  }

-- The loop of `FailedNodes`.
unfoldable pub failed_before : ℤ → Dict ℤ → List Bytes
failed_before cutoff [] = []
failed_before cutoff ((id, last) ∷ m) =
    let rest = failed_before cutoff m in if ltb_ℤ last cutoff then id ∷ rest else rest

unfoldable pub failed_nodes : Membership → ℤ → List Bytes
unfolding failed_before
failed_nodes m now = failed_before (now -ℤ m.timeout) m.heartbeats

-- The identifier of the owner, or the error that there is none.
unfoldable pub owner : Ring → ℤ → Option Bytes
owner ring slot = elim (node_for_slot ring slot) [ none ↦ none | some p ↦ some (ring.heap p).id ]

-- What ShouldRedirect answers: its second result where the first is true.
unfoldable pub should_redirect : Ring → Bytes → Bytes → Option Bytes
should_redirect ring self_id key = elim (node_for_key ring key) [
  | none ↦ none
  | some p ↦
      if eqb (ring.heap p).id self_id then none else some (redirect ring.heap (pos 0) (some p))
]

-- What the router of the queries answers, which may have no ring.
unfoldable pub route_key : Option Ring → Bytes → Bytes → Option Bytes
route_key none self_id key = none
route_key (some ring) self_id key = elim (node_for_key ring key) [
  | none ↦ none
  | some p ↦
      if eqb (ring.heap p).id self_id
      then none
      else some (redirect ring.heap (pos (hash_slot key)) (some p))
]
