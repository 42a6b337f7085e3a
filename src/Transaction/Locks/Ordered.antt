-- ===== src/Transaction/Locks/Ordered.antt =====
-- The loops of `sortedUnique`: how often a key is in what they give, and in which order.
use dbx_database_extreme.Base.{
  ℕ, zero, suc, ◌+◌, ◌≡◌, refl, ◌∙◌, ap, ◌≤◌, Bool, true, false, Bytes, List, [], ◌∷◌, All, arith,
  length, eqb, eqb_sound, eqb_refl, before, before_irrefl, before_trans, before_total, subst,
  if◌then◌else◌, Bool-cases, inl, inr,
}
use dbx_database_extreme.Transaction.Locks.{
  is_among, unique, swap_down, sort_from, sort, sorted_unique,
}

abbrev pub one_if : Bool → ℕ
one_if b = if b then 1 else 0

-- How often a key is in a list.
abbrev pub count : Bytes → List Bytes → ℕ
count k [] = 0
count k (j ∷ ks) = one_if (eqb j k) + count k ks

-- No element is before one that follows it.
abbrev IsAtMost : Bytes → Bytes → Type 0
IsAtMost x y = before y x ≡ false

IsAtMost-trans : (x y z : Bytes) → IsAtMost x y → IsAtMost y z → IsAtMost x z
IsAtMost-trans x y z xy yz = elim (Bool-cases (before y z)) [
  | inl e ↦ elim (Bool-cases (before z x)) [
    | inl f ↦ absurd (let g = before_trans y z x e f in cc)
    | inr f ↦ f
  ]
  | inr e ↦ subst (λ w. before w x ≡ false) (before_total y z e yz) xy
]

IsAtMost-before : (x y : Bytes) → before x y ≡ true → IsAtMost x y
IsAtMost-before x y h = elim (Bool-cases (before y x)) [
  | inl e ↦ absurd (let f = before_trans x y x h e in let g = before_irrefl x in cc)
  | inr e ↦ e
]

abbrev pub IsAscending : List Bytes → Type 0
IsAscending [] = Unit
IsAscending (x ∷ xs) = All (λ y. before x y ≡ true) xs × IsAscending xs

swap_down-count :
    (k x : Bytes) (xs : List Bytes)
    → one_if (eqb (swap_down x xs).0 k) + count k (swap_down x xs).1 ≡ one_if (eqb x k) + count k xs
unfolding swap_down
swap_down-count k x [] = refl
swap_down-count k x (y ∷ ys) = elim (Bool-cases (before y x)) [
  | inl e ↦ rw e (omega (arith, swap_down-count k y ys))
  | inr e ↦ rw e (omega (arith, swap_down-count k x ys))
]

swap_down-length : (x : Bytes) (xs : List Bytes) → length (swap_down x xs).1 ≡ length xs
unfolding swap_down
swap_down-length x [] = refl
swap_down-length x (y ∷ ys) = elim (Bool-cases (before y x)) [
  | inl e ↦ rw e (ap suc (swap_down-length y ys))
  | inr e ↦ rw e (ap suc (swap_down-length x ys))
]

swap_down-IsAtMost :
    (x : Bytes) (xs : List Bytes)
    → IsAtMost (swap_down x xs).0 x × All (IsAtMost (swap_down x xs).0) (swap_down x xs).1
unfolding swap_down
swap_down-IsAtMost x [] = (before_irrefl x, tt)
swap_down-IsAtMost x (y ∷ ys) = elim (Bool-cases (before y x)) [
  | inl e ↦
      let (h, a) = swap_down-IsAtMost y ys in
      let low = IsAtMost-trans (swap_down y ys).0 y x h (IsAtMost-before y x e) in
      rw e (low, (low, a))
  | inr e ↦
      let (h, a) = swap_down-IsAtMost x ys in
      rw e (h, (IsAtMost-trans (swap_down x ys).0 x y h e, a))
]

pub sort_from-count : (k : Bytes) (n : ℕ) (xs : List Bytes) → count k (sort_from n xs) ≡ count k xs
unfolding sort_from
sort_from-count k zero xs = refl
sort_from-count k (suc n) [] = refl
sort_from-count k (suc n) (x ∷ xs) =
    omega (arith, sort_from-count k n (swap_down x xs).1, swap_down-count k x xs)

-- What holds of all elements of a list holds of a list that contains the same.
count-All : (P : Bytes → Type 0) (xs : List Bytes) (k : Bytes) → All P xs → 1 ≤ count k xs → P k
count-All P [] k a h = absurd (omega arith)
count-All P (x ∷ xs) k a h = elim (Bool-cases (eqb x k)) [
  | inl e ↦ subst P (eqb_sound x k e) a.0
  | inr e ↦ let more : 1 ≤ 0 + count k xs = rw e at h in count-All P xs k a.1 (omega arith)
]

All-count : (P : Bytes → Type 0) (xs : List Bytes) → ((k : Bytes) → 1 ≤ count k xs → P k) → All P xs
All-count P [] h = tt
All-count P (x ∷ xs) h =
    (h x (rw (eqb_refl x) (omega arith)), All-count P xs (λ k one. h k (omega arith)))

before-All :
    (x : Bytes) (xs : List Bytes)
    → count x xs ≡ 0
    → All (IsAtMost x) xs
    → All (λ y. before x y ≡ true) xs
before-All x [] h a = tt
before-All x (y ∷ ys) h a = (
  elim (Bool-cases (before x y)) [
    | inl e ↦ e
    | inr e ↦
        let same : x ≡ y = before_total x y e a.0 in
        let there : eqb y x ≡ true = subst (λ z. eqb z x ≡ true) same (eqb_refl x) in
        let more : one_if (eqb y x) ≡ 1 = rw there refl in absurd (omega arith)
  ],
  before-All x ys (omega arith) a.1,
)

pub sort_from-IsAscending :
    (n : ℕ) (xs : List Bytes)
    → length xs ≤ n
    → ((k : Bytes) → count k xs ≤ 1)
    → IsAscending (sort_from n xs)
unfolding sort_from
sort_from-IsAscending zero [] h u = tt
sort_from-IsAscending zero (x ∷ xs) h u = absurd (omega arith)
sort_from-IsAscending (suc n) [] h u = tt
sort_from-IsAscending (suc n) (x ∷ xs) h u =
    let least = (swap_down x xs).0 in
    let rest = (swap_down x xs).1 in
    let total : (k : Bytes) → one_if (eqb least k) + count k rest ≤ 1 =
      λ k. omega (arith, swap_down-count k x xs, u k) in
    let itself : one_if (eqb least least) ≡ 1 = rw (eqb_refl least) refl in
    let sorted = sort_from n rest in
    (
      before-All least sorted (omega (arith, itself, total least, sort_from-count least n rest)) (
          All-count (IsAtMost least) sorted (λ k one.
            count-All (IsAtMost least) rest k (swap_down-IsAtMost x xs).1
              (omega (arith, sort_from-count k n rest)))),
      sort_from-IsAscending n rest (omega (arith, swap_down-length x xs))
          (λ k. omega (arith, total k)),
    )

-- How often a key is in a list without repetitions, where some keys are left out.
abbrev fresh_count : Bool → Bool → ℕ
fresh_count left_out there = if left_out then 0 else one_if there

unique-count :
    (k : Bytes) (seen ks : List Bytes)
    → count k (unique seen ks) ≡ fresh_count (is_among k seen) (is_among k ks)
unfolding unique is_among
unique-count k seen [] = elim (Bool-cases (is_among k seen)) [
  | inl e ↦ rw e refl
  | inr e ↦ rw e refl
]
unique-count k seen (j ∷ ks) = elim (Bool-cases (eqb j k)) [
  | inl e ↦ elim (Bool-cases (is_among j seen)) [
    | inl f ↦
        let g : is_among k seen ≡ true = subst (λ x. is_among x seen ≡ true) (eqb_sound j k e) f in
        let ih : count k (unique seen ks) ≡ 0 = rw g at (unique-count k seen ks) in rw (f, g) ih
    | inr f ↦
        let g : is_among k seen ≡ false =
          subst (λ x. is_among x seen ≡ false) (eqb_sound j k e) f in
        let ih : count k (unique (j ∷ seen) ks) ≡ 0 = rw e at (unique-count k (j ∷ seen) ks) in
        rw (f, g, e) (omega (arith, ih))
  ]
  | inr e ↦ elim (Bool-cases (is_among j seen)) [
    | inl f ↦ rw (f, e) (unique-count k seen ks)
    | inr f ↦
        let ih : count k (unique (j ∷ seen) ks) ≡ fresh_count (is_among k seen) (is_among k ks) =
          rw e at (unique-count k (j ∷ seen) ks) in
        rw (f, e) (omega (arith, ih))
  ]
]

pub sorted_unique-count :
    (k : Bytes) (keys : List Bytes) → count k (sorted_unique keys) ≡ one_if (is_among k keys)
unfolding sorted_unique sort is_among
sorted_unique-count k keys =
    sort_from-count k (length (unique [] keys)) (unique [] keys) ∙ unique-count k [] keys

one_if_le : (b : Bool) → one_if b ≤ 1
one_if_le true = omega arith
one_if_le false = omega arith

pub sorted_unique-IsAscending : (keys : List Bytes) → IsAscending (sorted_unique keys)
unfolding sorted_unique sort is_among
sorted_unique-IsAscending keys =
    sort_from-IsAscending (length (unique [] keys)) (unique [] keys) (omega arith)
      (λ k. omega (arith, unique-count k [] keys, one_if_le (is_among k keys)))
