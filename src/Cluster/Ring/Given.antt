-- ===== src/Cluster/Ring/Given.antt =====
-- What one round of the loop over the nodes does.
use dbx_database_extreme.Base.{
  ℕ, zero, suc, ◌+◌, ◌-◌, ◌≡◌, refl, ap, inl, inr, Bool, false, ◌&&◌, ◌||◌, Bytes, List, [], ◌∷◌,
  arith, pos, leb_ℤ, ◌==◌, leb, ltb, if◌then◌else◌, Bool-cases, ==_iff,
}
use dbx_database_extreme.Cluster.Ring.{Ring, SlotRange, store_slot, store_node, assign, give_slots}

-- One of the ranges holds the slot.
abbrev pub holds : List SlotRange → ℕ → Bool
holds [] s = false
holds (g ∷ gs) s = (leb_ℤ g.start (pos s) && leb_ℤ (pos s) g.end) || holds gs s

-- How often a node stands in a list of nodes.
abbrev pub occurs : ℕ → List ℕ → ℕ
occurs q [] = 0
occurs q (p ∷ ps) = if p == q then suc (occurs q ps) else occurs q ps

pub assign_at :
    (s n : ℕ) (id : Bytes) (m : ℕ → Bytes) (t : ℕ)
    → assign s n id m t ≡ (if leb s t && ltb t (s + n) then id else m t)
unfolding assign store_slot
assign_at s zero id m t = ground arith
assign_at s (suc n) id m t = ground (arith, assign_at (suc s) n id (store_slot s id m) t)

pub give_slots_at :
    (p start end : ℕ) (r : Ring) (t : ℕ)
    → (give_slots p start end r).slot_map t
      ≡ (if leb start t && ltb t end then (r.heap p).id else r.slot_map t)
unfolding give_slots
give_slots_at p start end r t =
    rw (assign_at start (end - start) (r.heap p).id r.slot_map t) (ground arith)

pub give_slots_id :
    (p start end : ℕ) (r : Ring) (q : ℕ) → ((give_slots p start end r).heap q).id ≡ (r.heap q).id
unfolding give_slots store_node
give_slots_id p start end r q = elim (Bool-cases (p == q)) [
  | inl e ↦ rw e (ap (λ x. (r.heap x).id) ((==_iff p q).0 e))
  | inr e ↦ rw e refl
]

pub give_slots-holds :
    (p start end : ℕ) (r : Ring) (t : ℕ)
    → holds ((give_slots p start end r).heap p).slots t ≡ (leb start t && ltb t end)
unfolding give_slots store_node
give_slots-holds p start end r t = rw ((==_iff p p).1 refl) (ground arith)

pub give_slots_apart :
    (p start end : ℕ) (r : Ring) (q : ℕ)
    → (p == q) ≡ false
    → (give_slots p start end r).heap q ≡ r.heap q
unfolding give_slots store_node
give_slots_apart p start end r q e = rw e refl
