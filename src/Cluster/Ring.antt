-- ===== src/Cluster/Ring.antt =====
-- internal/cluster/ring.go: the ring of nodes and the slots that each of them owns. A `*Node` is a number, and
-- the heap of the ring holds what stands behind it: `nodes` and `node_map` share the nodes, whose slots
-- `rebalance` writes.
pub mod Given
pub mod Sound
pub mod Listed
pub mod Reached
use dbx_database_extreme.Base.{
  ℕ, zero, suc, ◌+◌, ◌-◌, ◌*◌, ◌/◌, Bool, true, false, ◌&&◌, ◌||◌, Option, none, some, Bytes, List,
  [], ◌∷◌, ◌++◌, length, codes, Dict, lookup, insert, erase, eqb, ℤ, pos, sub_ℕ, ltb_ℤ, leb_ℤ,
  pos_part, ◌==◌, if◌then◌else◌,
}
use dbx_database_extreme.Util.Slot.{hash_slot}
use dbx_database_extreme.Util.Decimal.{format_int}

abbrev pub total_slots : ℕ
total_slots = 16384

-- An inclusive range.
pub record SlotRange : Type 0 where
  pub start : ℤ
  pub end : ℤ

pub data NodeState : Type 0 where
  node_online : NodeState
  node_offline : NodeState
  node_failing : NodeState

pub record Node : Type 0 where
  pub id : Bytes
  pub addr : Bytes
  pub slots : List SlotRange
  pub state : NodeState
  pub role : Bytes

pub record Ring : Type 0 where
  pub heap : ℕ → Node
  pub nodes : List ℕ
  pub node_map : Dict ℕ
  pub slot_map : ℕ → Bytes

-- NewRing, over a heap that the callers have allocated their nodes in.
unfoldable pub new_ring : (ℕ → Node) → Ring
new_ring heap = record { heap = heap; nodes = []; node_map = []; slot_map = λ s. [] }

-- *p = node
unfoldable pub store_node : ℕ → Node → (ℕ → Node) → ℕ → Node
store_node p node heap q = if p == q then node else heap q

-- slotMap[s] = id
unfoldable pub store_slot : ℕ → Bytes → (ℕ → Bytes) → ℕ → Bytes
store_slot s id slot_map t = if s == t then id else slot_map t

-- The loop over s, of which n rounds are left.
unfoldable pub assign : ℕ → ℕ → Bytes → (ℕ → Bytes) → ℕ → Bytes
unfolding store_slot
assign s zero id slot_map = slot_map
assign s (suc n) id slot_map = assign (suc s) n id (store_slot s id slot_map)

-- The body of the loop over the nodes: `end` is behind the last slot.
unfoldable pub give_slots : ℕ → ℕ → ℕ → Ring → Ring
unfolding assign store_node
give_slots p start end r =
    let node = r.heap p in
    record r {
      heap =
          store_node p
            (record node { slots = record { start = pos start; end = sub_ℕ end 1 } ∷ [] }) r.heap;
      slot_map = assign start (end - start) node.id r.slot_map;
    }

-- The loop from the node at i on, for n nodes.
unfoldable pub give_all : ℕ → ℕ → ℕ → List ℕ → Ring → Ring
unfolding give_slots
give_all n per i [] r = r
give_all n per i (p ∷ ps) r =
    let start = i * per in
    let end = if i + 1 == n then total_slots else start + per in
    give_all n per (i + 1) ps (give_slots p start end r)

-- NodeForSlot
unfoldable pub node_for_slot : Ring → ℤ → Option ℕ
node_for_slot r slot =
    if ltb_ℤ slot (pos 0) || leb_ℤ (pos total_slots) slot
    then none
    else lookup (r.slot_map (pos_part slot)) r.node_map

unfoldable pub node_for_key : Ring → Bytes → Option ℕ
unfolding node_for_slot
node_for_key r key = node_for_slot r (pos (hash_slot key))

-- `filtered`
unfoldable pub others_than : Bytes → (ℕ → Node) → List ℕ → List ℕ
others_than node_id heap [] = []
others_than node_id heap (p ∷ ps) =
    let rest = others_than node_id heap ps in if eqb (heap p).id node_id then rest else p ∷ rest

-- `sort` is `sort.Slice` by the identifiers that its first argument gives.
module _ (sort : (ℕ → Bytes) → List ℕ → List ℕ) where
  unfoldable pub rebalance : Ring → Ring
  unfolding give_all
  rebalance r = elim (length r.nodes) [
    | zero ↦ r
    | suc k ↦
        let nodes = sort (λ p. (r.heap p).id) r.nodes in
        give_all (suc k) (total_slots / suc k) 0 nodes (record r { nodes = nodes })
  ]

  unfoldable pub add_node : Ring → ℕ → Ring
  unfolding rebalance
  add_node r p =
      rebalance
        (record r { nodes = r.nodes ++ p ∷ []; node_map = insert (r.heap p).id p r.node_map })

  unfoldable pub remove_node : Ring → Bytes → Ring
  unfolding rebalance others_than
  remove_node r node_id =
      rebalance (record r {
        nodes = others_than node_id r.heap r.nodes;
        node_map = erase node_id r.node_map;
      })

-- What `fmt.Sprintf` writes for the address of a node, or for none.
unfoldable pub redirect : (ℕ → Node) → ℤ → Option ℕ → Bytes
redirect heap slot none = codes "MOVED " ++ format_int slot ++ codes " (no owner)"
redirect heap slot (some p) = codes "MOVED " ++ format_int slot ++ codes " " ++ (heap p).addr

-- SlotInfo
unfoldable pub slot_info : (ℕ → Node) → List ℕ → Dict (List SlotRange) → Dict (List SlotRange)
slot_info heap [] m = m
slot_info heap (p ∷ ps) m = slot_info heap ps (insert (heap p).id (heap p).slots m)
