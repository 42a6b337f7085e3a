-- ===== src/Engine/Lists/Range.antt =====
-- The ranges of LRANGE, LTRIM and GETRANGE.
use dbx_database_extreme.Base.{
  ℕ, zero, suc, ◌+◌, ◌-◌, ◌≤◌, ◌<◌, ◌≡◌, refl, ◌∙◌, ap, Bool, false, ◌&&◌, Option, none, some, List,
  [], ◌∷◌, arith, take, drop, get_elem?, ℤ, pos, negsuc, ◌-ℤ◌, leb_ℤ, ltb, leb, if◌then◌else◌,
}
use dbx_database_extreme.Engine.Lists.{from_end, clamp, range_of, slice}

-- The indices that a range holds.
abbrev pub within : Option (ℕ × ℕ) → ℕ → Bool
within none i = false
within (some (first, last)) i = leb first i && leb i last

within-clamp :
    (n : ℕ) (start stop : ℤ) (i : ℕ)
    → within (clamp n start stop) i ≡ (ltb i n && (leb_ℤ start (pos i) && leb_ℤ (pos i) stop))
unfolding clamp ◌-ℤ◌
within-clamp n (pos a) (pos b) i = ground arith
within-clamp n (pos a) (negsuc b) i = ground arith
within-clamp n (negsuc a) (pos b) i = ground arith
within-clamp n (negsuc a) (negsuc b) i = ground arith

-- The range holds the indices of the elements between the two, both counted from the end if negative.
within-range_of :
    (n : ℕ) (start stop : ℤ) (i : ℕ)
    → within (range_of n start stop) i
      ≡ (ltb i n && (leb_ℤ (from_end n start) (pos i) && leb_ℤ (pos i) (from_end n stop)))
unfolding range_of
within-range_of n start stop i = within-clamp n (from_end n start) (from_end n stop) i

clamp-le :
    (n : ℕ) (start stop : ℤ) (first last : ℕ)
    → clamp n start stop ≡ some (first, last)
    → (first ≤ last) × (last < n)
unfolding clamp ◌-ℤ◌
clamp-le n (pos a) (pos b) first last h = ground arith
clamp-le n (pos a) (negsuc b) first last h = ground arith
clamp-le n (negsuc a) (pos b) first last h = ground arith
clamp-le n (negsuc a) (negsuc b) first last h = ground arith

-- A range is within its elements and not turned round: no slicing by it panics.
range_of-le :
    (n : ℕ) (start stop : ℤ) (first last : ℕ)
    → range_of n start stop ≡ some (first, last)
    → (first ≤ last) × (last < n)
unfolding range_of
range_of-le n start stop first last h = clamp-le n (from_end n start) (from_end n stop) first last h

get_elem?-take :
    {A : Type 0} (n i : ℕ) (xs : List A)
    → get_elem? (take n xs) i ≡ (if ltb i n then get_elem? xs i else none)
get_elem?-take zero i xs = ground arith
get_elem?-take (suc n) i [] = ground arith
get_elem?-take (suc n) zero (x ∷ xs) = ground arith
get_elem?-take (suc n) (suc i) (x ∷ xs) = get_elem?-take n i xs ∙ ground arith

get_elem?-drop :
    {A : Type 0} (n i : ℕ) (xs : List A) → get_elem? (drop n xs) i ≡ get_elem? xs (n + i)
get_elem?-drop zero i xs = ap (get_elem? xs) (omega arith)
get_elem?-drop (suc n) i [] = refl
get_elem?-drop (suc n) i (x ∷ xs) =
    get_elem?-drop n i xs ∙ ap (get_elem? (x ∷ xs)) {x = suc (n + i)} (omega arith)

-- What a slice holds, one element after the other.
pub get_elem?-slice :
    {A : Type 0} (first last i : ℕ) (xs : List A)
    → first ≤ last
    → get_elem? (slice (some (first, last)) xs) i
      ≡ (if leb (first + i) last then get_elem? xs (first + i) else none)
unfolding slice
get_elem?-slice first last i xs h =
    get_elem?-take (last - first + 1) i (drop first xs)
    ∙ rw (get_elem?-drop first i xs) (ground arith)
