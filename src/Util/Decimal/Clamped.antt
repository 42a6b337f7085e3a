-- ===== src/Util/Decimal/Clamped.antt =====
-- Go's `strconv.ParseInt` and `strconv.Atoi` where the caller does not look at the error.
use dbx_database_extreme.Base.{
  ℕ, zero, suc, ◌+◌, ◌-◌, ◌*◌, ◌^◌, ◌&&◌, Bytes, Option, none, some, [], ◌∷◌, ltb, leb, ◌==◌, ℤ,
  pos, negsuc, if◌then◌else◌,
}

-- `strconv.ParseUint`, with the greatest number where the text is out of range: what follows the digit that
-- shows this is not looked at.
saturated : ℕ → Bytes → Option ℕ
saturated n [] = some n
saturated n (c ∷ r) =
    let next = n * 10 + (c - 48) in
    let rest = saturated next r in
    if leb 48 c && leb c 57 then (if ltb next (2 ^ 64) then rest else some (2 ^ 64 - 1)) else none

unsigned_clamped : Bytes → Option ℕ
unfolding saturated
unsigned_clamped [] = none
unsigned_clamped (c ∷ r) = saturated 0 (c ∷ r)

clamp_positive : Option ℕ → ℤ
clamp_positive none = pos 0
clamp_positive (some n) = if ltb n (2 ^ 63) then pos n else pos (2 ^ 63 - 1)

clamp_negative : Option ℕ → ℤ
clamp_negative none = pos 0
clamp_negative (some zero) = pos 0
clamp_negative (some (suc n)) = if ltb n (2 ^ 63) then negsuc n else negsuc (2 ^ 63 - 1)

-- The number that `strconv.ParseInt` and `strconv.Atoi` return where the error is not looked at.
unfoldable pub parse_clamped : Bytes → ℤ
unfolding unsigned_clamped clamp_positive clamp_negative
parse_clamped [] = pos 0
parse_clamped (c ∷ r) =
    if c == b'-'
    then clamp_negative (unsigned_clamped r)
    else if c == b'+'
    then clamp_positive (unsigned_clamped r)
    else clamp_positive (unsigned_clamped (c ∷ r))
