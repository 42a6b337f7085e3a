-- ===== src/Engine/Kv/Reaper/Drain.antt =====
-- One shard's heap: what is taken was due, and with no limit all that is due is taken.
use dbx_database_extreme.Base.{
  ℕ, suc, ◌≤◌, ◌<◌, ◌≡◌, refl, sym, ap, ◌∙◌, true, false, not, Bytes, Option, none, some, List, [],
  ◌∷◌, Dict, lookup, erase, lookup-erase, eqb, eqb_iff, eqb_refl, arith, ℤ, ltb_ℤ, eqb_ℤ, ◌≤ℤ◌,
  if◌then◌else◌, Bool-cases, ◌⊎◌, inl, inr, All,
}
use dbx_database_extreme.Engine.Entry.{Entry}
use dbx_database_extreme.Engine.Kv.{ExpiryItem}
use dbx_database_extreme.Engine.Kv.Reaper.{is_stale, below_limit, drain}

abbrev pub InHeap : ExpiryItem → List ExpiryItem → Type 0
InHeap item [] = ⊥
InHeap item (x ∷ xs) = (x ≡ item) ⊎ InHeap item xs

-- The item that was pushed when the entry got its deadline.
abbrev pub item_of : Bytes → Entry → ExpiryItem
item_of key e = record { key = key; deadline = e.expires_at; version = e.version }

-- The reading of a key after the reaper: as before, or gone with a deadline that was due, by the very
-- item that the heap held for it.
abbrev pub Reaped : ℤ → Bytes → List ExpiryItem → Option Entry → Option Entry → Type 0
Reaped now key heap before after =
    (after ≡ before)
    ⊎ ((after ≡ none)
        × (e : Entry) × (before ≡ some e)
        × (e.expires_at ≤ℤ now)
        × InHeap (item_of key e) heap)

eqb_ℤ_sound : (a b : ℤ) → eqb_ℤ a b ≡ true → a ≡ b
eqb_ℤ_sound a b h = ground arith

-- The item that an entry is not stale for is its own.
not_stale :
    (o : Option Entry) (item : ExpiryItem)
    → is_stale o item ≡ false
    → (e : Entry) × (o ≡ some e) × (item ≡ item_of item.key e)
unfolding is_stale
not_stale none item h = cc
not_stale (some e) item h =
    let d : e.expires_at ≡ item.deadline = eqb_ℤ_sound e.expires_at item.deadline (ground arith) in
    let v : e.version ≡ item.version = ground arith in (e, refl, ground (arith, d, v))

erase_step :
    (entries : Dict Entry) (item : ExpiryItem) (rest : List ExpiryItem) (now : ℤ) (j : Bytes)
    → ltb_ℤ now item.deadline ≡ false
    → Reaped now j (item ∷ rest) (lookup j entries) (
        lookup j
          (if is_stale (lookup item.key entries) item then entries else erase item.key entries))
erase_step entries item rest now j due =
    elim (Bool-cases (is_stale (lookup item.key entries) item)) [
      | inl s ↦ rw s (inl refl)
      | inr s ↦ rw s (
          rw (lookup-erase item.key j entries) (elim (Bool-cases (eqb item.key j)) [
            | inl same ↦
                let (e, there, own) = not_stale (lookup item.key entries) item s in
                let k : item.key ≡ j = (eqb_iff item.key j).0 same in
                rw same (
                  inr (
                    refl,
                    e,
                    rw (sym k) there,
                    ground (arith, own),
                    inl (own ∙ ap (λ (b : Bytes). item_of b e) k),
                  ))
            | inr other ↦ rw other (inl refl)
          ]))
    ]

in_tail :
    (now : ℤ) (j : Bytes) (x : ExpiryItem) (xs : List ExpiryItem) (a b : Option Entry)
    → Reaped now j xs a b
    → Reaped now j (x ∷ xs) a b
in_tail now j x xs a b (inl p) = inl p
in_tail now j x xs a b (inr (p, e, r, d, m)) = inr (p, e, r, d, inr m)

Reaped-trans :
    (now : ℤ) (j : Bytes) (heap : List ExpiryItem) (a b c : Option Entry)
    → Reaped now j heap a b
    → Reaped now j heap b c
    → Reaped now j heap a c
Reaped-trans now j heap a b c (inl p) (inl q) = inl (q ∙ p)
Reaped-trans now j heap a b c (inl p) (inr (q, e, r, d, m)) = inr (q, e, sym p ∙ r, d, m)
Reaped-trans now j heap a b c (inr (p, e, r, d, m)) (inl q) = inr (q ∙ p, e, r, d, m)
Reaped-trans now j heap a b c (inr (p, e, r, d, m)) (inr (q, _, _, _, _)) = inr (q, e, r, d, m)

pub drain-Reaped :
    (limit : ℕ) (now : ℤ) (count : ℕ) (entries : Dict Entry) (heap : List ExpiryItem) (j : Bytes)
    → Reaped now j heap (lookup j entries) (lookup j (drain limit now count entries heap).1.entries)
unfolding drain
drain-Reaped limit now count entries [] j = inl refl
drain-Reaped limit now count entries (item ∷ rest) j =
    let stale = is_stale (lookup item.key entries) item in
    let entries' = if stale then entries else erase item.key entries in
    let ih = drain-Reaped limit now (if stale then count else suc count) entries' rest j in
    elim (Bool-cases (not (below_limit limit count))) [
      | inl full ↦ rw full (inl refl)
      | inr open_ ↦ rw open_ (elim (Bool-cases (ltb_ℤ now item.deadline)) [
        | inl early ↦ rw early (inl refl)
        | inr due ↦ rw due (
            Reaped-trans now j (item ∷ rest) (lookup j entries) (lookup j entries') _
              (erase_step entries item rest now j due)
              (in_tail now j item rest (lookup j entries') _ ih))
      ])
    ]

-- A positive limit is never passed.
pub drain-le :
    (limit : ℕ) (now : ℤ) (count : ℕ) (entries : Dict Entry) (heap : List ExpiryItem)
    → count ≤ limit
    → 0 < limit
    → (drain limit now count entries heap).0 ≤ limit
unfolding drain
drain-le limit now count entries [] h p = h
drain-le limit now count entries (item ∷ rest) h p =
    let stale = is_stale (lookup item.key entries) item in
    let entries' = if stale then entries else erase item.key entries in
    let ih = drain-le limit now (if stale then count else suc count) entries' rest in
    elim (Bool-cases (not (below_limit limit count))) [
      | inl full ↦ rw full h
      | inr open_ ↦ rw open_ (elim (Bool-cases (ltb_ℤ now item.deadline)) [
        | inl early ↦ rw early h
        | inr due ↦ rw due (ih (ground arith) p)
      ])
    ]

-- The order in which `heap.Pop` takes the items.
abbrev pub IsOrdered : List ExpiryItem → Type 0
IsOrdered [] = Unit
IsOrdered (x ∷ xs) = All (λ (y : ExpiryItem). x.deadline ≤ℤ y.deadline) xs × IsOrdered xs

below_all :
    (d : ℤ) (item : ExpiryItem) (xs : List ExpiryItem)
    → All (λ (y : ExpiryItem). d ≤ℤ y.deadline) xs
    → InHeap item xs
    → d ≤ℤ item.deadline
below_all d item [] h m = elim m [ ]
below_all d item (x ∷ xs) h (inl e) = rw (sym e) (h.0)
below_all d item (x ∷ xs) h (inr m) = below_all d item xs h.1 m

item_of-fresh : (key : Bytes) (e : Entry) → is_stale (some e) (item_of key e) ≡ false
unfolding is_stale
item_of-fresh key e = ground arith

Reaped-none :
    (now : ℤ) (j : Bytes) (heap : List ExpiryItem) (after : Option Entry)
    → Reaped now j heap none after
    → after ≡ none
Reaped-none now j heap after (inl e) = e
Reaped-none now j heap after (inr (e, _, _, _, _)) = e

module _ (now : ℤ) (key : Bytes) (e : Entry) (due : e.expires_at ≤ℤ now) where
  -- What is gone stays gone.
  drain-none :
      (count : ℕ) (entries : Dict Entry) (heap : List ExpiryItem)
      → lookup key entries ≡ none
      → lookup key (drain 0 now count entries heap).1.entries ≡ none
  drain-none count entries heap gone =
      let r = drain-Reaped 0 now count entries heap key in Reaped-none now key heap _ (rw gone at r)

  erase_other :
      (entries : Dict Entry) (x : ExpiryItem)
      → lookup key entries ≡ some e
      → (lookup key (if is_stale (lookup x.key entries) x then entries else erase x.key entries)
          ≡ some e)
        ⊎ (lookup key (if is_stale (lookup x.key entries) x then entries else erase x.key entries)
            ≡ none)
  erase_other entries x there = ground (arith, lookup-erase x.key key entries)

  -- With no limit, an entry that its item tracks is taken when it is due.
  pub drain_complete :
      (count : ℕ) (entries : Dict Entry) (heap : List ExpiryItem)
      → IsOrdered heap
      → InHeap (item_of key e) heap
      → lookup key entries ≡ some e
      → lookup key (drain 0 now count entries heap).1.entries ≡ none
  unfolding drain
  drain_complete count entries [] order m there = elim m [ ]
  drain_complete count entries (x ∷ rest) order (inl first) there =
      let early : ltb_ℤ now e.expires_at ≡ false = ground arith in
      let gone : lookup key (erase key entries) ≡ none =
        lookup-erase key key entries ∙ rw (eqb_refl key) in
      rw first (
        rw early (
          rw there
            (rw (item_of-fresh key e) (drain-none (suc count) (erase key entries) rest gone))))
  drain_complete count entries (x ∷ rest) order (inr later) there =
      let early : ltb_ℤ now x.deadline ≡ false =
        ground (arith, below_all x.deadline (item_of key e) rest order.0 later) in
      let stale = is_stale (lookup x.key entries) x in
      let entries' = if stale then entries else erase x.key entries in
      let count' : ℕ = if stale then count else suc count in
      rw early (elim (erase_other entries x there) [
        | inl kept ↦
            drain_complete (if is_stale (lookup x.key entries) x then count else suc count) entries'
              rest order.1 later kept
        | inr gone ↦ drain-none count' entries' rest gone
      ])
