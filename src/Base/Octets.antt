-- ===== src/Base/Octets.antt =====
-- Byte strings, and the text of a test as its bytes. Go's `string` and `[]byte` are both lists of
-- byte values; the order is Go's byte-wise order of strings.
use Prim.Native.Nat.{ℕ, compare, Ordering}
use Prim.Native.Char.{code}
use Prim.Native.String.{String}
use mathlib.Core.Path.{◌≡◌, refl}
use mathlib.Core.Logic.{◌↔◌}
use mathlib.Core.Bool.{Bool, true, false, ◌&&◌}
use mathlib.Core.List.{List, [], ◌∷◌}
use native.Mathlib.Omega.{arith}
use dbx_database_extreme.Base.Tests.{◌==◌}

abbrev pub Bytes : Type 0
Bytes = List ℕ

-- The code points of a text: its bytes, if it is ASCII.
abbrev pub codes : String → Bytes
codes String.[] = []
codes (String.◌∷◌ c s) = code c ∷ codes s

-- `==` on strings.
unfoldable pub eqb : Bytes → Bytes → Bool
eqb [] [] = true
eqb (x ∷ xs) (y ∷ ys) = (x == y) && eqb xs ys
eqb _ _ = false

pub eqb_sound : (xs ys : Bytes) → eqb xs ys ≡ true → xs ≡ ys
unfolding eqb
eqb_sound [] [] h = refl
eqb_sound [] (y ∷ ys) h = ground arith
eqb_sound (x ∷ xs) [] h = ground arith
eqb_sound (x ∷ xs) (y ∷ ys) h = ground (arith, eqb_sound xs ys)

pub eqb_refl : (xs : Bytes) → eqb xs xs ≡ true
unfolding eqb
eqb_refl [] = refl
eqb_refl (x ∷ xs) = ground (arith, eqb_refl xs)

pub eqb_iff : (xs ys : Bytes) → (eqb xs ys ≡ true) ↔ (xs ≡ ys)
eqb_iff xs ys = (eqb_sound xs ys, λ e. ground (arith, e, eqb_refl xs))

-- `a < b` on strings.
unfoldable pub before : Bytes → Bytes → Bool
before [] [] = false
before [] (y ∷ ys) = true
before (x ∷ xs) [] = false
before (x ∷ xs) (y ∷ ys) = elim (compare x y) [
  | Ordering.lt ↦ true
  | Ordering.eq ↦ before xs ys
  | Ordering.gt ↦ false
]

pub before_irrefl : (xs : Bytes) → before xs xs ≡ false
unfolding before
before_irrefl [] = refl
before_irrefl (x ∷ xs) = ground (arith, before_irrefl xs)

pub before_trans :
    (xs ys zs : Bytes) → before xs ys ≡ true → before ys zs ≡ true → before xs zs ≡ true
unfolding before
before_trans [] [] zs h k = ground arith
before_trans [] (y ∷ ys) [] h k = ground arith
before_trans [] (y ∷ ys) (z ∷ zs) h k = refl
before_trans (x ∷ xs) [] zs h k = ground arith
before_trans (x ∷ xs) (y ∷ ys) [] h k = ground arith
before_trans (x ∷ xs) (y ∷ ys) (z ∷ zs) h k = ground (arith, before_trans xs ys zs)

pub before_total : (xs ys : Bytes) → before xs ys ≡ false → before ys xs ≡ false → xs ≡ ys
unfolding before
before_total [] [] h k = refl
before_total [] (y ∷ ys) h k = ground arith
before_total (x ∷ xs) [] h k = ground arith
before_total (x ∷ xs) (y ∷ ys) h k = ground (arith, before_total xs ys)
