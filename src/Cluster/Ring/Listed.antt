-- ===== src/Cluster/Ring/Listed.antt =====
-- What a node that joins or leaves does to the list of nodes and to the map.
use dbx_database_extreme.Base.{
  ℕ, zero, suc, ◌+◌, ◌/◌, ◌≤◌, ◌<◌, ◌≡◌, refl, sym, ap, ◌∙◌, subst, ◌⊎◌, inl, inr, true, false,
  none, some, Bytes, List, [], ◌∷◌, ◌++◌, arith, length, lookup, insert, erase, lookup-insert,
  lookup-erase, eqb, eqb_refl, eqb_sound, eqb_iff, ◌==◌, ==_iff, if◌then◌else◌, Bool-cases,
}
use dbx_database_extreme.Cluster.Ring.{
  Ring, Node, total_slots, give_all, others_than, rebalance, add_node, remove_node,
}
use dbx_database_extreme.Cluster.Ring.Given.{occurs}
use dbx_database_extreme.Cluster.Ring.Sound.{IsOwner, give_all-IsOwner, give_all_id, give_all_kept}

-- No node is listed twice, and the map leads from its identifier to it.
abbrev pub IsListed : Ring → Type 0
IsListed r =
    ((q : ℕ) → occurs q r.nodes ≤ 1)
    × ((q : ℕ) → 0 < occurs q r.nodes → lookup (r.heap q).id r.node_map ≡ some q)

-- Every slot has an owner.
abbrev pub IsSpread : Ring → Type 0
IsSpread r = (t : ℕ) → 0 < length r.nodes → t < total_slots → (o : ℕ) × IsOwner r r.nodes t o

abbrev pub IsSound : Ring → Type 0
IsSound r = IsListed r × IsSpread r

occurs-append_one :
    (q p : ℕ) (xs : List ℕ) → occurs q (xs ++ p ∷ []) ≡ occurs q xs + (if p == q then 1 else 0)
occurs-append_one q p [] = ground arith
occurs-append_one q p (x ∷ xs) = ground (arith, occurs-append_one q p xs)

occurs-others_than :
    (q : ℕ) (node_id : Bytes) (heap : ℕ → Node) (xs : List ℕ)
    → occurs q (others_than node_id heap xs) ≡ (if eqb (heap q).id node_id then 0 else occurs q xs)
unfolding others_than
occurs-others_than q node_id heap [] = ground arith
occurs-others_than q node_id heap (x ∷ xs) = elim (Bool-cases (x == q)) [
  | inl e ↦
      let same = (==_iff x q).0 e in
      subst
        (λ y.
          occurs y (others_than node_id heap (x ∷ xs))
          ≡ (if eqb (heap y).id node_id then 0 else occurs y (x ∷ xs)))
        same (ground (arith, occurs-others_than x node_id heap xs))
  | inr e ↦ ground (arith, e, occurs-others_than q node_id heap xs)
]

eqb_sym : (xs ys : Bytes) → eqb xs ys ≡ eqb ys xs
eqb_sym xs ys = ground (arith, eqb_iff xs ys, eqb_iff ys xs, eqb_refl xs, eqb_refl ys)

zero-or_more : (n : ℕ) → (n ≡ 0) ⊎ (0 < n)
zero-or_more zero = inl refl
zero-or_more (suc n) = inr (omega arith)

just_joined : (p q n : ℕ) → n ≡ 0 → 0 < n + (if p == q then 1 else 0) → p ≡ q
just_joined p q n h m = ground arith

still_there : (p q n : ℕ) → (p == q) ≡ false → 0 < n + (if p == q then 1 else 0) → 0 < n
still_there p q n h m = ground arith

length-cases : (xs : List ℕ) → (length xs ≡ 0) ⊎ ((k : ℕ) × (length xs ≡ suc k))
length-cases [] = inl refl
length-cases (x ∷ xs) = inr (length xs, refl)

module _ (sort : (ℕ → Bytes) → List ℕ → List ℕ)
    (same : (f : ℕ → Bytes) (xs : List ℕ) (q : ℕ) → occurs q (sort f xs) ≡ occurs q xs)
    (size : (f : ℕ → Bytes) (xs : List ℕ) → length (sort f xs) ≡ length xs) where
  rebalance-some :
      (r : Ring) (k : ℕ)
      → length r.nodes ≡ suc k
      → rebalance sort r ≡ (
          let nodes = sort (λ p. (r.heap p).id) r.nodes in
          give_all (suc k) (total_slots / suc k) 0 nodes (record r { nodes = nodes }))
  unfolding rebalance
  rebalance-some r k e = rw (e, rebalance) refl

  rebalance-none : (r : Ring) → length r.nodes ≡ 0 → rebalance sort r ≡ r
  unfolding rebalance
  rebalance-none r e = rw (e, rebalance) refl

  given-IsSound :
      (r : Ring) (k per : ℕ) (f : ℕ → Bytes)
      → IsListed r
      → length r.nodes ≡ suc k
      → IsSound (give_all (suc k) per 0 (sort f r.nodes) (record r { nodes = sort f r.nodes }))
  given-IsSound r k per f (once, mapped) e =
      let nodes = sort f r.nodes in
      let base : Ring = record r { nodes = nodes } in
      let given : Ring = give_all (suc k) per 0 nodes base in
      let (listed, leads) = give_all_kept (suc k) per 0 nodes base in
      let single : (q : ℕ) → occurs q nodes ≤ 1 = λ q. omega (arith, same f r.nodes q, once q) in
      let count : length nodes ≡ suc k = size f r.nodes ∙ e in
      (
        (
          λ q. subst (λ ns. occurs q ns ≤ 1) (sym listed) (single q),
          λ q m.
              ap (λ i. lookup i given.node_map) (give_all_id (suc k) per 0 nodes base q)
              ∙ ap (lookup (r.heap q).id) leads
              ∙ mapped q (subst (λ c. 0 < c) (ap (occurs q) listed ∙ same f r.nodes q) m),
        ),
        λ t m high.
            subst (λ ns. (o : ℕ) × IsOwner given ns t o) (sym listed)
              (give_all-IsOwner (suc k) per 0 nodes base t single (omega (arith, count))
                (omega (arith, count)) (omega arith) high),
      )

  rebalance-IsSound : (r : Ring) → IsListed r → IsSound (rebalance sort r)
  rebalance-IsSound r listed = elim (length-cases r.nodes) [
    | inl e ↦
        subst IsSound (sym (rebalance-none r e)) (listed, λ t m high. absurd (omega (arith, e, m)))
    | inr (k, e) ↦
        subst IsSound (sym (rebalance-some r k e))
          (given-IsSound r k (total_slots / suc k) (λ p. (r.heap p).id) listed e)
  ]

  -- No node of the ring bears the identifier of the one that joins.
  unlisted :
      (r : Ring) (p q : ℕ)
      → IsListed r
      → lookup (r.heap p).id r.node_map ≡ none
      → eqb (r.heap p).id (r.heap q).id ≡ true
      → occurs q r.nodes ≡ 0
  unlisted r p q (once, mapped) fresh e = elim (zero-or_more (occurs q r.nodes)) [
    | inl h ↦ h
    | inr h ↦
        let no : none ≡ some q =
          sym fresh
          ∙ ap (λ i. lookup i r.node_map) (eqb_sound (r.heap p).id (r.heap q).id e)
          ∙ mapped q h in
        absurd (cc)
  ]

  joined_once :
      (r : Ring) (p q : ℕ)
      → IsListed r
      → lookup (r.heap p).id r.node_map ≡ none
      → occurs q (r.nodes ++ p ∷ []) ≤ 1
  joined_once r p q listed fresh = rw (occurs-append_one q p r.nodes) (elim (Bool-cases (p == q)) [
    | inl e ↦
        let same = ap (λ x. eqb (r.heap p).id (r.heap x).id) (sym ((==_iff p q).0 e)) in
        let none_else = unlisted r p q listed fresh (same ∙ eqb_refl (r.heap p).id) in
        rw e (omega (arith, none_else))
    | inr e ↦ rw e (omega (arith, listed.0 q))
  ])

  joined_mapped :
      (r : Ring) (p q : ℕ)
      → IsListed r
      → lookup (r.heap p).id r.node_map ≡ none
      → 0 < occurs q (r.nodes ++ p ∷ [])
      → lookup (r.heap q).id (insert (r.heap p).id p r.node_map) ≡ some q
  joined_mapped r p q listed fresh m =
      let there = subst (λ c. 0 < c) (occurs-append_one q p r.nodes) m in
      rw (lookup-insert (r.heap p).id (r.heap q).id p r.node_map)
        (elim (Bool-cases (eqb (r.heap p).id (r.heap q).id)) [
          | inl e ↦
              rw e
                (ap some (just_joined p q (occurs q r.nodes) (unlisted r p q listed fresh e) there))
          | inr e ↦ rw e (
              listed.1 q (elim (Bool-cases (p == q)) [
                | inl h ↦
                    let no : false ≡ true =
                      sym e
                      ∙ ap (λ x. eqb (r.heap p).id (r.heap x).id) (sym ((==_iff p q).0 h))
                      ∙ eqb_refl (r.heap p).id in
                    absurd (cc)
                | inr h ↦ still_there p q (occurs q r.nodes) h there
              ]))
        ])

  pub add_node-IsSound :
      (r : Ring) (p : ℕ)
      → IsListed r
      → lookup (r.heap p).id r.node_map ≡ none
      → IsSound (add_node sort r p)
  unfolding add_node
  add_node-IsSound r p listed fresh =
      rebalance-IsSound
        (record r { nodes = r.nodes ++ p ∷ []; node_map = insert (r.heap p).id p r.node_map })
        (λ q. joined_once r p q listed fresh, λ q m. joined_mapped r p q listed fresh m)

  pub remove_node-IsSound :
      (r : Ring) (node_id : Bytes) → IsListed r → IsSound (remove_node sort r node_id)
  unfolding remove_node
  remove_node-IsSound r node_id (once, mapped) =
      rebalance-IsSound
        (record r {
          nodes = others_than node_id r.heap r.nodes;
          node_map = erase node_id r.node_map;
        })
        (
          λ q. rw (occurs-others_than q node_id r.heap r.nodes) (ground (arith, once q)),
          λ q m.
              let there = subst (λ c. 0 < c) (occurs-others_than q node_id r.heap r.nodes) m in
              rw (lookup-erase node_id (r.heap q).id r.node_map, eqb_sym node_id (r.heap q).id)
                (elim (Bool-cases (eqb (r.heap q).id node_id)) [
                  | inl e ↦ let no : 0 < 0 = rw e at there in absurd (omega (arith, no))
                  | inr e ↦ rw e (mapped q (rw e at there))
                ]),
        )
