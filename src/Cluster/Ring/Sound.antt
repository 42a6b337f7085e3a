-- ===== src/Cluster/Ring/Sound.antt =====
-- How the loop over the nodes spreads the slots.
use dbx_database_extreme.Base.{
  ℕ, zero, suc, ◌+◌, ◌*◌, ◌≤◌, ◌<◌, ◌≡◌, ◌⊎◌, refl, sym, ap, ◌∙◌, subst, inl, inr, true, false,
  ◌&&◌, List, [], ◌∷◌, arith, length, ◌==◌, leb, ltb, if◌then◌else◌, Bool-cases, ==_iff, ltb→lt,
}
use dbx_database_extreme.Cluster.Ring.{Ring, total_slots, give_slots, give_all}
use dbx_database_extreme.Cluster.Ring.Given.{
  holds, occurs, give_slots_at, give_slots_id, give_slots-holds, give_slots_apart,
}

-- Where the slots of the node at i end.
abbrev end_of : ℕ → ℕ → ℕ → ℕ
end_of n per i = if i + 1 == n then total_slots else i * per + per

pub give_all_id :
    (n per i : ℕ) (ps : List ℕ) (r : Ring) (q : ℕ)
    → ((give_all n per i ps r).heap q).id ≡ (r.heap q).id
unfolding give_all
give_all_id n per i [] r q = refl
give_all_id n per i (p ∷ ps) r q =
    give_all_id n per (i + 1) ps (give_slots p (i * per) (end_of n per i) r) q
    ∙ give_slots_id p (i * per) (end_of n per i) r q

pub give_all_kept :
    (n per i : ℕ) (ps : List ℕ) (r : Ring)
    → ((give_all n per i ps r).nodes ≡ r.nodes) × ((give_all n per i ps r).node_map ≡ r.node_map)
unfolding give_all give_slots
give_all_kept n per i [] r = (refl, refl)
give_all_kept n per i (p ∷ ps) r =
    give_all_kept n per (i + 1) ps (give_slots p (i * per) (end_of n per i) r)

give_all_apart :
    (n per i : ℕ) (ps : List ℕ) (r : Ring) (q : ℕ)
    → occurs q ps ≡ 0
    → (give_all n per i ps r).heap q ≡ r.heap q
unfolding give_all
give_all_apart n per i [] r q h = refl
give_all_apart n per i (p ∷ ps) r q h = elim (Bool-cases (p == q)) [
  | inl e ↦ let no : suc (occurs q ps) ≡ 0 = rw e at h in absurd (omega (arith, no))
  | inr e ↦
      give_all_apart n per (i + 1) ps (give_slots p (i * per) (end_of n per i) r) q (rw e at h)
      ∙ give_slots_apart p (i * per) (end_of n per i) r q e
]

-- The slots before the first that the loop comes to stay as they are.
give_all_before :
    (n per i : ℕ) (ps : List ℕ) (r : Ring) (t : ℕ)
    → t < i * per
    → (give_all n per i ps r).slot_map t ≡ r.slot_map t
unfolding give_all
give_all_before n per i [] r t h = refl
give_all_before n per i (p ∷ ps) r t h =
    let start = i * per in
    give_all_before n per (i + 1) ps (give_slots p start (end_of n per i) r) t (omega arith)
    ∙ give_slots_at p start (end_of n per i) r t
    ∙ ground arith

-- The range of a node that the loop does not come to again.
give_all-holds :
    (n per i p : ℕ) (ps : List ℕ) (r : Ring) (t : ℕ)
    → occurs p ps ≡ 0
    → holds ((give_all n per i (p ∷ ps) r).heap p).slots t
      ≡ (leb (i * per) t && ltb t (end_of n per i))
unfolding give_all
give_all-holds n per i p ps r t h =
    let given = give_slots p (i * per) (end_of n per i) r in
    ap (λ x. holds x.slots t) (give_all_apart n per (i + 1) ps given p h)
    ∙ give_slots-holds p (i * per) (end_of n per i) r t

-- A node of the list is its head or stands behind it.
occurs-cases :
    (q p : ℕ) (ps : List ℕ)
    → 0 < occurs q (p ∷ ps)
    → ((p ≡ q) × (occurs q ps ≡ 0)) ⊎ (0 < occurs q ps)
occurs-cases q p ps h = ground arith

-- None of the nodes that the loop comes to gets one of them.
give_all-holds_before :
    (n per i : ℕ) (ps : List ℕ) (r : Ring) (q t : ℕ)
    → 0 < occurs q ps
    → t < i * per
    → holds ((give_all n per i ps r).heap q).slots t ≡ false
unfolding give_all
give_all-holds_before n per i [] r q t m h = absurd (omega arith)
give_all-holds_before n per i (p ∷ ps) r q t m h = elim (occurs-cases q p ps m) [
  | inl (e, alone) ↦
      subst (λ x. holds ((give_all n per i (p ∷ ps) r).heap x).slots t ≡ false) e
        (give_all-holds n per i p ps r t (ap (λ x. occurs x ps) e ∙ alone) ∙ ground arith)
  | inr later ↦
      give_all-holds_before n per (i + 1) ps (give_slots p (i * per) (end_of n per i) r) q t later
        (omega arith)
]

occurs_once : (p : ℕ) (ps : List ℕ) → occurs p (p ∷ ps) ≤ 1 → occurs p ps ≡ 0
occurs_once p ps h = ground arith

occurs_behind : (q p : ℕ) (ps : List ℕ) → occurs q (p ∷ ps) ≤ 1 → occurs q ps ≤ 1
occurs_behind q p ps h = ground arith

not_before : (t n : ℕ) → ltb t n ≡ false → n ≤ t
not_before t n h = ground arith

-- The node that owns a slot: of the nodes listed, it is the one whose range holds the slot, and the slot bears
-- its identifier.
abbrev pub IsOwner : Ring → List ℕ → ℕ → ℕ → Type 0
IsOwner r ps t p =
    (0 < occurs p ps)
    × (r.slot_map t ≡ (r.heap p).id)
    × (holds (r.heap p).slots t ≡ true)
    × ((q : ℕ) → 0 < occurs q ps → holds (r.heap q).slots t ≡ true → p ≡ q)

-- What the loop has still to do leaves the slot alone.
abbrev IsDone : ℕ → ℕ → List ℕ → ℕ → Type 0
IsDone per i ps t = (t < i * per) ⊎ (length ps ≡ 0)

done_before :
    (n per i : ℕ) (ps : List ℕ) (r : Ring) (t : ℕ)
    → IsDone per i ps t
    → (give_all n per i ps r).slot_map t ≡ r.slot_map t
unfolding give_all
done_before n per i [] r t h = refl
done_before n per i (p ∷ ps) r t (inl h) = give_all_before n per i (p ∷ ps) r t h
done_before n per i (p ∷ ps) r t (inr h) = absurd (omega (arith, h))

done-holds :
    (n per i : ℕ) (ps : List ℕ) (r : Ring) (q t : ℕ)
    → IsDone per i ps t
    → 0 < occurs q ps
    → holds ((give_all n per i ps r).heap q).slots t ≡ false
done-holds n per i [] r q t h m = absurd (omega arith)
done-holds n per i (p ∷ ps) r q t (inl h) m = give_all-holds_before n per i (p ∷ ps) r q t m h
done-holds n per i (p ∷ ps) r q t (inr h) m = absurd (omega (arith, h))

in_range : (start t end : ℕ) → start ≤ t → t < end → (leb start t && ltb t end) ≡ true
in_range start t end h k = ground arith

beyond : (start t end : ℕ) → end ≤ t → (leb start t && ltb t end) ≡ false
beyond start t end h = ground arith

first_IsOwner :
    (n per i p : ℕ) (ps : List ℕ) (r : Ring) (t : ℕ)
    → occurs p ps ≡ 0
    → i * per ≤ t
    → t < end_of n per i
    → IsDone per (i + 1) ps t
    → IsOwner (give_all n per i (p ∷ ps) r) (p ∷ ps) t p
unfolding give_all
first_IsOwner n per i p ps r t alone low high done =
    let start = i * per in
    let given = give_slots p start (end_of n per i) r in
    let all : Ring = give_all n per i (p ∷ ps) r in
    (
      rw ((==_iff p p).1 refl) (omega arith),
      done_before n per (i + 1) ps given t done
          ∙ give_slots_at p start (end_of n per i) r t
          ∙ ap (λ b. if b then (r.heap p).id else r.slot_map t)
              (in_range start t (end_of n per i) low high)
          ∙ sym (give_all_id n per i (p ∷ ps) r p),
      give_all-holds n per i p ps r t alone ∙ in_range start t (end_of n per i) low high,
      λ q m h. elim (occurs-cases q p ps m) [
        | inl (e, rest) ↦ e
        | inr later ↦
            let no : false ≡ true = sym (done-holds n per (i + 1) ps given q t done later) ∙ h in
            absurd (cc)
      ],
    )

-- A slot that the loop comes to later.
later_IsOwner :
    (n per i p : ℕ) (ps : List ℕ) (r : Ring) (t o : ℕ)
    → occurs p ps ≡ 0
    → end_of n per i ≤ t
    → IsOwner (give_all n per (i + 1) ps (give_slots p (i * per) (end_of n per i) r)) ps t o
    → IsOwner (give_all n per i (p ∷ ps) r) (p ∷ ps) t o
unfolding give_all
later_IsOwner n per i p ps r t o alone high (there, at, held, only) = (
  ground (arith, there),
  at,
  held,
  λ q m h. elim (occurs-cases q p ps m) [
    | inl (e, rest) ↦
        let no : false ≡ true =
          sym (give_all-holds n per i p ps r t alone ∙ beyond (i * per) t (end_of n per i) high)
          ∙ ap (λ x. holds ((give_all n per i (p ∷ ps) r).heap x).slots t) e
          ∙ h in
        absurd (cc)
    | inr later ↦ only q later h
  ],
)

not_last : (n i k : ℕ) → n ≡ i + suc k → (i + 1 == n) ≡ false → 0 < k
not_last n i zero e h = ground arith
not_last n i (suc k) e h = omega arith

-- Either the node is the last one, whose slots end where all do, or its slots end where the next node's begin.
end_of-cases :
    (n per i k : ℕ)
    → n ≡ i + suc k
    → ((k ≡ 0) × (end_of n per i ≡ total_slots)) ⊎ ((0 < k) × (end_of n per i ≡ (i + 1) * per))
end_of-cases n per i k e = elim (Bool-cases (i + 1 == n)) [
  | inl h ↦ let last = (==_iff (i + 1) n).0 h in inl (omega (arith, last), rw h refl)
  | inr h ↦ inr (not_last n i k e h, rw h (omega arith))
]

pub give_all-IsOwner :
    (n per i : ℕ) (ps : List ℕ) (r : Ring) (t : ℕ)
    → ((q : ℕ) → occurs q ps ≤ 1)
    → n ≡ i + length ps
    → 0 < length ps
    → i * per ≤ t
    → t < total_slots
    → (o : ℕ) × IsOwner (give_all n per i ps r) ps t o
give_all-IsOwner n per i [] r t d e m low high = absurd (omega arith)
give_all-IsOwner n per i (p ∷ ps) r t d e m low high =
    let alone : occurs p ps ≡ 0 = occurs_once p ps (d p) in
    let apart : (q : ℕ) → occurs q ps ≤ 1 = λ q. occurs_behind q p ps (d q) in
    let ended = end_of-cases n per i (length ps) e in
    elim (Bool-cases (ltb t (end_of n per i))) [
      | inl h ↦
          let here = ltb→lt t (end_of n per i) h in
          let done : IsDone per (i + 1) ps t = elim ended [
            | inl (none_left, at) ↦ inr none_left
            | inr (more, at) ↦ inl (subst (λ x. t < x) at here)
          ] in
          (p, first_IsOwner n per i p ps r t alone low here done)
      | inr h ↦
          let over : end_of n per i ≤ t = not_before t (end_of n per i) h in
          elim ended [
            | inl (none_left, at) ↦ absurd (omega (arith, at, over, high))
            | inr (more, at) ↦
                let found =
                  give_all-IsOwner n per (i + 1) ps (give_slots p (i * per) (end_of n per i) r) t
                    apart (omega (arith, e)) more (subst (λ x. x ≤ t) at over) high in
                (found.0, later_IsOwner n per i p ps r t found.0 alone over found.1)
          ]
    ]
