-- ===== src/Examples/Nodes.antt =====
-- Two nodes in a ring, and keys with hash tags.
use dbx_database_extreme.Base.{
  ℕ, suc, ◌≡◌, refl, ap, ◌∙◌, some, Bytes, List, [], ◌∷◌, ◌++◌, arith, codes, length, before,
  lookup, insert, eqb, if◌then◌else◌, ◌==◌,
}
use dbx_database_extreme.Util.Slot.{open_brace, close_brace, hash_slot, hash_slot-tag}
use dbx_database_extreme.Cluster.Ring.{
  Node, Ring, node_online, new_ring, add_node, rebalance, node_for_key, give_all, give_slots,
  store_node, node_for_slot, redirect,
}
use dbx_database_extreme.Cluster.Ring.Given.{occurs}
use dbx_database_extreme.Cluster.Ring.Sound.{IsOwner}
use dbx_database_extreme.Cluster.Ring.Reached.{IsReached, empty, joined, node_for_key-reached}
use dbx_database_extreme.Util.Decimal.{format_int}
use dbx_database_extreme.Cluster.Membership.{should_redirect, route_key}

-- user:{42}:name
hash_slot-tag_example :
    hash_slot (codes "user:" ++ open_brace ∷ (codes "42" ++ close_brace ∷ codes ":name"))
    ≡ hash_slot (codes "42")
hash_slot-tag_example =
    hash_slot-tag (codes "user:") (codes "42") (codes ":name") (ground arith) (ground arith)
      (omega arith)

-- Redis reads `{bar` as the tag of this key; here it is `bar`.
nested_braces : hash_slot (codes "foo{{bar}}zap") ≡ hash_slot (codes "bar")
unfolding hash_slot
nested_braces = refl

-- A sort of the nodes by their identifiers.
abbrev insert_by : (ℕ → Bytes) → ℕ → List ℕ → List ℕ
insert_by f p [] = p ∷ []
insert_by f p (q ∷ qs) = if before (f q) (f p) then q ∷ insert_by f p qs else p ∷ q ∷ qs

abbrev by_id : (ℕ → Bytes) → List ℕ → List ℕ
by_id f [] = []
by_id f (p ∷ ps) = insert_by f p (by_id f ps)

occurs-insert_by :
    (f : ℕ → Bytes) (p : ℕ) (xs : List ℕ) (q : ℕ) → occurs q (insert_by f p xs) ≡ occurs q (p ∷ xs)
occurs-insert_by f p [] q = refl
occurs-insert_by f p (x ∷ xs) q = ground (arith, occurs-insert_by f p xs q)

length-insert_by :
    (f : ℕ → Bytes) (p : ℕ) (xs : List ℕ) → length (insert_by f p xs) ≡ suc (length xs)
length-insert_by f p [] = refl
length-insert_by f p (x ∷ xs) = ground (arith, length-insert_by f p xs)

occurs-by_id : (f : ℕ → Bytes) (xs : List ℕ) (q : ℕ) → occurs q (by_id f xs) ≡ occurs q xs
occurs-by_id f [] q = refl
occurs-by_id f (x ∷ xs) q =
    occurs-insert_by f x (by_id f xs) q ∙ ground (arith, occurs-by_id f xs q)

length-by_id : (f : ℕ → Bytes) (xs : List ℕ) → length (by_id f xs) ≡ length xs
length-by_id f [] = refl
length-by_id f (x ∷ xs) = length-insert_by f x (by_id f xs) ∙ ap suc (length-by_id f xs)

abbrev node_named : Bytes → Bytes → Node
node_named id addr = record {
  id = id;
  addr = addr;
  slots = [];
  state = node_online;
  role = codes "primary";
}

abbrev allocated : ℕ → Node
allocated p =
    if p == 0 then node_named (codes "b") (codes "b:1") else node_named (codes "a") (codes "a:1")

abbrev one_node : Ring
one_node = add_node by_id (new_ring allocated) 0

abbrev two_nodes : Ring
two_nodes = add_node by_id one_node 1

one_node-IsReached : IsReached by_id one_node
unfolding lookup new_ring
one_node-IsReached = joined (new_ring allocated) 0 (empty allocated) refl

two_nodes-IsReached : IsReached by_id two_nodes
unfolding lookup insert eqb add_node rebalance new_ring give_all give_slots store_node
two_nodes-IsReached = joined one_node 1 one_node-IsReached refl

two_nodes-length : length two_nodes.nodes ≡ 2
unfolding add_node rebalance new_ring give_all give_slots store_node before
two_nodes-length = refl

node_for_key-reached_example :
    (o : ℕ) × (node_for_key two_nodes (codes "k") ≡ some o)
    × IsOwner two_nodes two_nodes.nodes (hash_slot (codes "k")) o
node_for_key-reached_example =
    node_for_key-reached by_id occurs-by_id length-by_id two_nodes (codes "k") two_nodes-IsReached
      (omega (arith, two_nodes-length))

-- A ring in which the second node owns every slot.
abbrev whole : Ring
whole = record {
  heap = allocated;
  nodes = 1 ∷ [];
  node_map = (codes "a", 1) ∷ [];
  slot_map = λ t. codes "a";
}

-- The redirect of the cluster names slot 0, that of the router the slot of the key.
redirect_to_zero : should_redirect whole (codes "b") (codes "bar") ≡ some (codes "MOVED 0 a:1")
unfolding should_redirect node_for_key node_for_slot hash_slot lookup eqb redirect format_int
redirect_to_zero = refl

redirect_to_slot : route_key (some whole) (codes "b") (codes "bar") ≡ some (codes "MOVED 5061 a:1")
unfolding route_key node_for_key node_for_slot hash_slot lookup eqb redirect format_int
redirect_to_slot = refl
