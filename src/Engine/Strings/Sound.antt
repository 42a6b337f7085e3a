-- ===== src/Engine/Strings/Sound.antt =====
-- What the string operations do to the bytes that a key shows.
use dbx_database_extreme.Base.{
  ℕ, zero, suc, ◌+◌, ◌-◌, ◌≤◌, ◌≡◌, refl, ◌∙◌, ap, ◌&&◌, Bytes, [], ◌∷◌, ◌++◌, arith, length,
  length-append, length-replicate, length-take, length-drop, take, drop, get_or, replicate, max,
  leb, ltb, if◌then◌else◌,
}
use dbx_database_extreme.Engine.Strings.{overwrite}

get_or-take :
    (n i : ℕ) (xs : Bytes) → get_or (take n xs) i 0 ≡ (if ltb i n then get_or xs i 0 else 0)
get_or-take zero i xs = ground arith
get_or-take (suc n) i [] = ground arith
get_or-take (suc n) zero (x ∷ xs) = ground arith
get_or-take (suc n) (suc i) (x ∷ xs) = get_or-take n i xs ∙ ground arith

get_or-drop : (n i : ℕ) (xs : Bytes) → get_or (drop n xs) i 0 ≡ get_or xs (n + i) 0
get_or-drop zero i xs = ap (λ j. get_or xs j 0) (omega arith)
get_or-drop (suc n) i [] = refl
get_or-drop (suc n) i (x ∷ xs) =
    get_or-drop n i xs ∙ ap (λ j. get_or (x ∷ xs) j 0) {x = suc (n + i)} (omega arith)

get_or-append :
    (xs ys : Bytes) (i : ℕ)
    → get_or (xs ++ ys) i 0
      ≡ (if ltb i (length xs) then get_or xs i 0 else get_or ys (i - length xs) 0)
get_or-append [] ys i = ground arith
get_or-append (x ∷ xs) ys zero = ground arith
get_or-append (x ∷ xs) ys (suc i) = get_or-append xs ys i ∙ ground arith

get_or-zeros : (n i : ℕ) → get_or {A = ℕ} (replicate n 0) i 0 ≡ 0
get_or-zeros zero i = refl
get_or-zeros (suc n) zero = refl
get_or-zeros (suc n) (suc i) = get_or-zeros n i

get_or-long : (xs : Bytes) (i : ℕ) → length xs ≤ i → get_or xs i 0 ≡ 0
get_or-long [] i h = refl
get_or-long (x ∷ xs) zero h = absurd (omega arith)
get_or-long (x ∷ xs) (suc i) h = get_or-long xs i (omega arith)

get_or-extended : (xs : Bytes) (n i : ℕ) → get_or (xs ++ replicate n 0) i 0 ≡ get_or xs i 0
get_or-extended xs n i =
    get_or-append xs (replicate n 0) i
    ∙ ground (arith, get_or-zeros n (i - length xs), get_or-long xs i)

module _ (ext value : Bytes) (offset : ℕ) (h : offset + length value ≤ length ext) where
  length-splice :
      length (take offset ext ++ (value ++ drop (offset + length value) ext)) ≡ length ext
  length-splice = omega (
    arith,
    length-append (take offset ext) (value ++ drop (offset + length value) ext),
    length-append value (drop (offset + length value) ext),
    length-take offset ext,
    length-drop (offset + length value) ext,
  )

  behind :
      (i : ℕ)
      → offset + length value ≤ i
      → get_or ext (offset + length value + (i - offset - length value)) 0 ≡ get_or ext i 0
  behind i b = ap (λ j. get_or ext j 0) (omega arith)

  get_or-splice :
      (i : ℕ)
      → get_or (take offset ext ++ (value ++ drop (offset + length value) ext)) i 0 ≡ (
          if leb offset i && ltb i (offset + length value)
          then get_or value (i - offset) 0
          else get_or ext i 0)
  get_or-splice i =
      let len : length (take offset ext) ≡ offset = omega (arith, length-take offset ext) in
      get_or-append (take offset ext) (value ++ drop (offset + length value) ext) i
      ∙ rw len (
          ground (
            arith,
            get_or-take offset i ext,
            get_or-append value (drop (offset + length value) ext) (i - offset),
            get_or-drop (offset + length value) (i - offset - length value) ext,
            behind i,
          ))

abbrev padded : ℕ → Bytes → Bytes → Bytes
padded offset value current = current ++ replicate (offset + length value - length current) 0

length-padded :
    (offset : ℕ) (value current : Bytes)
    → length (padded offset value current) ≡ max (length current) (offset + length value)
length-padded offset value current = omega (
  arith,
  length-append current (replicate (offset + length value - length current) 0),
  length-replicate {A = ℕ} (offset + length value - length current) 0,
)

pub length-overwrite :
    (offset : ℕ) (value current : Bytes)
    → length (overwrite offset value current) ≡ max (length current) (offset + length value)
unfolding overwrite
length-overwrite offset value current =
    let len = length-padded offset value current in
    length-splice (padded offset value current) value offset (omega (arith, len)) ∙ len

pub get_or-overwrite :
    (offset : ℕ) (value current : Bytes) (i : ℕ)
    → get_or (overwrite offset value current) i 0 ≡ (
        if leb offset i && ltb i (offset + length value)
        then get_or value (i - offset) 0
        else get_or current i 0)
unfolding overwrite
get_or-overwrite offset value current i =
    get_or-splice (padded offset value current) value offset
      (omega (arith, length-padded offset value current)) i
    ∙ rw (get_or-extended current (offset + length value - length current) i)
