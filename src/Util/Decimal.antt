-- ===== src/Util/Decimal.antt =====
-- Go's `strconv.ParseInt(s, 10, 64)` and `strconv.FormatInt(n, 10)`, which the string and hash
-- counters use.
pub mod Clamped
use dbx_database_extreme.Base.{
  ℕ, zero, suc, ◌+◌, ◌-◌, ◌*◌, ◌/◌, ◌%◌, ◌^◌, ◌<◌, ◌≤◌, ◌≡◌, refl, ap, ◌∙◌, ◌&&◌, Bytes, Option,
  none, some, [], ◌∷◌, length, arith, ltb, leb, ◌==◌, ℤ, pos, negsuc, IsInt64, codes, if◌then◌else◌,
  Bool-cases, inl, inr,
}

digits_value : ℕ → Bytes → Option ℕ
digits_value n [] = some n
digits_value n (c ∷ r) =
    let rest = digits_value (n * 10 + (c - 48)) r in if leb 48 c && leb c 57 then rest else none

unsigned : Bytes → Option ℕ
unfolding digits_value
unsigned [] = none
unsigned (c ∷ r) = digits_value 0 (c ∷ r)

positive : Option ℕ → Option ℤ
positive none = none
positive (some n) = if ltb n (2 ^ 63) then some (pos n) else none

negative : Option ℕ → Option ℤ
negative none = none
negative (some zero) = some (pos 0)
negative (some (suc n)) = if ltb n (2 ^ 63) then some (negsuc n) else none

unfoldable pub parse_int : Bytes → Option ℤ
unfolding unsigned positive negative
parse_int [] = none
parse_int (c ∷ r) =
    if c == b'-'
    then negative (unsigned r)
    else if c == b'+'
    then positive (unsigned r)
    else positive (unsigned (c ∷ r))

-- The digits of n before those of the argument; a round for each digit is enough.
format_nat : ℕ → ℕ → Bytes → Bytes
format_nat zero n acc = acc
format_nat (suc f) n acc =
    let more = format_nat f (n / 10) ((48 + n % 10) ∷ acc) in
    if ltb n 10 then (48 + n) ∷ acc else more

unfoldable pub format_int : ℤ → Bytes
unfolding format_nat
format_int (pos n) = format_nat (suc n) n []
format_int (negsuc n) = b'-' ∷ format_nat (suc (suc n)) (suc n) []

digits_value-format_nat :
    (f n : ℕ) (acc : Bytes) → n < f → digits_value 0 (format_nat f n acc) ≡ digits_value n acc
unfolding format_nat digits_value
digits_value-format_nat zero n acc h = absurd (omega arith)
digits_value-format_nat (suc f) n acc h = elim (Bool-cases (ltb n 10)) [
  | inl small ↦ rw small (ground arith)
  | inr large ↦
      rw large
        (digits_value-format_nat f (n / 10) ((48 + n % 10) ∷ acc) (ground arith) ∙ ground arith)
]

-- The text begins with a digit.
format_nat-digit :
    (f n : ℕ) (acc : Bytes)
    → n < f
    → (c : ℕ) × (r : Bytes) × (format_nat f n acc ≡ c ∷ r) × (48 ≤ c)
unfolding format_nat
format_nat-digit zero n acc h = absurd (omega arith)
format_nat-digit (suc f) n acc h = elim (Bool-cases (ltb n 10)) [
  | inl small ↦ (48 + n, acc, rw small, omega arith)
  | inr large ↦
      let (c, r, e, d) = format_nat-digit f (n / 10) ((48 + n % 10) ∷ acc) (ground arith) in
      (c, r, rw large e, d)
]

unsigned-format_nat : (f n : ℕ) → n < f → unsigned (format_nat f n []) ≡ some n
unfolding unsigned
unsigned-format_nat f n h =
    let (c, r, e, d) = format_nat-digit f n [] h in
    let v = digits_value-format_nat f n [] h in rw e (rw e at v ∙ (unfold digits_value in refl))

parse_int-digit : (c : ℕ) (r : Bytes) → 48 ≤ c → parse_int (c ∷ r) ≡ positive (unsigned (c ∷ r))
unfolding parse_int
parse_int-digit c r h = ground arith

positive_small : (n : ℕ) → n < 2 ^ 63 → positive (some n) ≡ some (pos n)
unfolding positive
positive_small n h = ground arith

parse_int-format_nat : (f n : ℕ) → n < f → n < 2 ^ 63 → parse_int (format_nat f n []) ≡ some (pos n)
parse_int-format_nat f n h small =
    let (c, r, e, d) = format_nat-digit f n [] h in
    let u = unsigned-format_nat f n h in
    rw e (parse_int-digit c r d ∙ (ap positive (rw e at u) ∙ positive_small n small))

parse_int-format_minus :
    (f n : ℕ)
    → suc n < f
    → n < 2 ^ 63
    → parse_int (b'-' ∷ format_nat f (suc n) []) ≡ some (negsuc n)
unfolding parse_int
parse_int-format_minus f n h small = rw (unsigned-format_nat f (suc n) h) (ground arith)

-- Printing an `int64` and parsing the text gives the number back.
pub parse_int-format_int : (z : ℤ) → IsInt64 z → parse_int (format_int z) ≡ some z
unfolding format_int
parse_int-format_int (pos n) h = parse_int-format_nat (suc n) n (omega arith) (omega arith)
parse_int-format_int (negsuc n) h =
    parse_int-format_minus (suc (suc n)) n (omega arith) (omega arith)

parse_int_minus : parse_int (codes "-120") ≡ some (negsuc 119)
unfolding parse_int
parse_int_minus = refl

positive-IsInt64 : (o : Option ℕ) (z : ℤ) → positive o ≡ some z → IsInt64 z
unfolding positive
positive-IsInt64 none z h = absurd (cc)
positive-IsInt64 (some n) z h = elim (Bool-cases (ltb n (2 ^ 63))) [
  | inl e ↦ let k : some (pos n) ≡ some z = rw e at h in ground (arith, k, e)
  | inr e ↦ absurd (let k = rw e at h in cc)
]

negative-IsInt64 : (o : Option ℕ) (z : ℤ) → negative o ≡ some z → IsInt64 z
unfolding negative
negative-IsInt64 none z h = absurd (cc)
negative-IsInt64 (some zero) z h = ground (arith, h)
negative-IsInt64 (some (suc n)) z h = elim (Bool-cases (ltb n (2 ^ 63))) [
  | inl e ↦ let k : some (negsuc n) ≡ some z = rw e at h in ground (arith, k, e)
  | inr e ↦ absurd (let k = rw e at h in cc)
]

-- What is parsed is in the range of `int64`.
pub parse_int-IsInt64 : (s : Bytes) (z : ℤ) → parse_int s ≡ some z → IsInt64 z
unfolding parse_int
parse_int-IsInt64 [] z h = absurd (cc)
parse_int-IsInt64 (c ∷ r) z h = elim (Bool-cases (c == b'-')) [
  | inl e ↦ negative-IsInt64 (unsigned r) z (rw e at h)
  | inr e ↦ elim (Bool-cases (c == b'+')) [
    | inl f ↦ positive-IsInt64 (unsigned r) z (let k = rw e at h in rw f at k)
    | inr f ↦ positive-IsInt64 (unsigned (c ∷ r)) z (let k = rw e at h in rw f at k)
  ]
]

-- Every byte of the text is a digit.
abbrev pub IsDigits : Bytes → Type 0
IsDigits [] = Unit
IsDigits (c ∷ s) = (48 ≤ c) × (c ≤ 57) × IsDigits s

format_nat-IsDigits : (f n : ℕ) (acc : Bytes) → IsDigits acc → IsDigits (format_nat f n acc)
unfolding format_nat
format_nat-IsDigits zero n acc h = h
format_nat-IsDigits (suc f) n acc h = elim (Bool-cases (ltb n 10)) [
  | inl e ↦ rw e (omega arith, ground arith, h)
  | inr e ↦
      rw e (format_nat-IsDigits f (n / 10) ((48 + n % 10) ∷ acc) (omega arith, omega arith, h))
]

-- n has at most k + 1 digits.
abbrev pub Fits : ℕ → ℕ → Type 0
Fits zero n = n < 10
Fits (suc k) n = Fits k (n / 10)

length-format_nat :
    (k f n : ℕ) (acc : Bytes) → Fits k n → length (format_nat f n acc) ≤ suc k + length acc
unfolding format_nat
length-format_nat k zero n acc h = omega arith
length-format_nat zero (suc f) n acc h = ground arith
length-format_nat (suc k) (suc f) n acc h = elim (Bool-cases (ltb n 10)) [
  | inl e ↦ rw e (omega arith)
  | inr e ↦ rw e (omega (arith, length-format_nat k f (n / 10) ((48 + n % 10) ∷ acc) h))
]

-- The text of a number that is not negative: digits only, as many as the number has, and at least one.
pub format_int-IsDigits : (n : ℕ) → IsDigits (format_int (pos n))
unfolding format_int
format_int-IsDigits n = format_nat-IsDigits (suc n) n [] tt

pub length-format_int : (k n : ℕ) → Fits k n → length (format_int (pos n)) ≤ suc k
unfolding format_int
length-format_int k n h = omega (arith, length-format_nat k (suc n) n [] h)
