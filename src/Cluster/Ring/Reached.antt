-- ===== src/Cluster/Ring/Reached.antt =====
-- The rings that nodes joining and leaving make: every slot has one owner, which a lookup finds.
use dbx_database_extreme.Base.{
  ℕ, ◌<◌, ◌≡◌, ◌∙◌, ap, none, some, Bytes, List, arith, length, lookup, pos,
}
use dbx_database_extreme.Util.Slot.{hash_slot, hash_slot-lt}
use dbx_database_extreme.Cluster.Ring.{
  Ring, Node, total_slots, new_ring, node_for_slot, node_for_key, add_node, remove_node,
}
use dbx_database_extreme.Cluster.Ring.Given.{occurs}
use dbx_database_extreme.Cluster.Ring.Sound.{IsOwner}
use dbx_database_extreme.Cluster.Ring.Listed.{IsSound, add_node-IsSound, remove_node-IsSound}

-- The rings that come about: a node joins under an identifier that the ring does not know.
pub data IsReached (sort : (ℕ → Bytes) → List ℕ → List ℕ) : Ring → Type 0 where
  empty : (heap : ℕ → Node) → IsReached sort (new_ring heap)
  joined :
      (r : Ring) (p : ℕ)
      → IsReached sort r
      → lookup (r.heap p).id r.node_map ≡ none
      → IsReached sort (add_node sort r p)
  left :
      (r : Ring) (node_id : Bytes) → IsReached sort r → IsReached sort (remove_node sort r node_id)

new_ring-IsSound : (heap : ℕ → Node) → IsSound (new_ring heap)
unfolding new_ring
new_ring-IsSound heap =
    ((λ q. omega arith, λ q m. absurd (omega (arith, m))), λ t m high. absurd (omega (arith, m)))

node_for_slot_at :
    (r : Ring) (t : ℕ)
    → t < total_slots
    → node_for_slot r (pos t) ≡ lookup (r.slot_map t) r.node_map
unfolding node_for_slot
node_for_slot_at r t h = ground (arith, h)

module _ (sort : (ℕ → Bytes) → List ℕ → List ℕ)
    (same : (f : ℕ → Bytes) (xs : List ℕ) (q : ℕ) → occurs q (sort f xs) ≡ occurs q xs)
    (size : (f : ℕ → Bytes) (xs : List ℕ) → length (sort f xs) ≡ length xs) where
  reached-IsSound : (r : Ring) → IsReached sort r → IsSound r
  reached-IsSound _ (empty heap) = new_ring-IsSound heap
  reached-IsSound _ (joined r p h fresh) =
      add_node-IsSound sort same size r p (reached-IsSound r h).0 fresh
  reached-IsSound _ (left r node_id h) =
      remove_node-IsSound sort same size r node_id (reached-IsSound r h).0

  -- In a ring of nodes that joined, each under an identifier of its own, or left again, every key is found at a
  -- node of the ring: its slot bears the identifier of that node, which is the one node with a range that
  -- holds the slot.
  pub node_for_key-reached :
      (r : Ring) (key : Bytes)
      → IsReached sort r
      → 0 < length r.nodes
      → (o : ℕ) × (node_for_key r key ≡ some o) × IsOwner r r.nodes (hash_slot key) o
  unfolding node_for_key
  node_for_key-reached r key h some_node =
      let sound = reached-IsSound r h in
      let (o, owns) = sound.1 (hash_slot key) some_node (hash_slot-lt key) in
      (
        o,
        node_for_slot_at r (hash_slot key) (hash_slot-lt key)
            ∙ ap (λ i. lookup i r.node_map) owns.1
            ∙ sound.0.1 o owns.0,
        owns,
      )
