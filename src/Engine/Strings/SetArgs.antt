-- ===== src/Engine/Strings/SetArgs.antt =====
-- `ParseSetArgs` of internal/engine/string.go.
use dbx_database_extreme.Base.{
  ℕ, ◌<◌, arith, ◌-◌, ◌/◌, ◌≡◌, Bool, true, false, ◌&&◌, Bytes, Option, none, some, List, [], ◌∷◌,
  map, codes, eqb, leb, leb_ℤ, pos_part, ℤ, pos, if◌then◌else◌,
}
use dbx_database_extreme.Util.Decimal.{parse_int}
use dbx_database_extreme.Engine.Typed.{
  Answer, done, failed, panicked, syntax, missing_value, value_out_of_range,
}

pub record SetArgs : Type 0 where
  pub value : Bytes
  pub ttl_sec : ℤ
  pub nx : Bool
  pub xx : Bool

-- `strings.ToUpper` on ASCII: no other letter has one of the options' letters as its upper case.
unfoldable pub to_upper : Bytes → Bytes
to_upper s = map (λ (c : ℕ). if leb 97 c && leb c 122 then c - 32 else c) s

-- A time must be a positive number; it is counted in units of which `per_second` make a second.
unfoldable pub time_arg : ℕ → Option ℤ → Answer ℤ
time_arg per_second none = failed value_out_of_range
time_arg per_second (some n) =
    if leb_ℤ n (pos 0) then failed value_out_of_range else done (pos (pos_part n / per_second))

unfoldable pub with_time : Answer ℤ → (ℤ → Answer SetArgs) → Answer SetArgs
with_time (done n) f = f n
with_time (failed e) f = failed e
with_time panicked f = panicked

-- The loop over the options.
unfoldable pub parse_options : SetArgs → List Bytes → Answer SetArgs
unfolding to_upper time_arg with_time
parse_options acc [] = done acc
parse_options acc (a ∷ []) =
    let name = to_upper a in
    if eqb name (codes "NX")
    then done (record acc { nx = true })
    else if eqb name (codes "XX")
    then done (record acc { xx = true })
    else failed syntax
parse_options acc (a ∷ b ∷ args) =
    let name = to_upper a in
    let from_nx = parse_options (record acc { nx = true }) (b ∷ args) in
    let from_xx = parse_options (record acc { xx = true }) (b ∷ args) in
    let timed : ℕ → Answer SetArgs = λ (per_second : ℕ).
      with_time (time_arg per_second (parse_int b))
        (λ n. parse_options (record acc { ttl_sec = n }) args) in
    if eqb name (codes "EX")
    then timed 1
    else if eqb name (codes "PX")
    then timed 1000
    else if eqb name (codes "NX")
    then from_nx
    else if eqb name (codes "XX")
    then from_xx
    else failed syntax

unfoldable pub parse_set_args : List Bytes → Answer SetArgs
unfolding parse_options
parse_set_args [] = failed missing_value
parse_set_args (value ∷ args) =
    parse_options (record { value = value; ttl_sec = pos 0; nx = false; xx = false }) args

-- SET with PX and a positive number of milliseconds takes the whole seconds of it; less than one
-- second comes out as 0.
pub parse_set_args-px :
    (value time : Bytes) (n : ℕ)
    → parse_int time ≡ some (pos n)
    → 0 < n
    → parse_set_args (value ∷ codes "px" ∷ time ∷ [])
      ≡ done (record { value = value; ttl_sec = pos (n / 1000); nx = false; xx = false })
unfolding parse_set_args eqb
parse_set_args-px value time n h p = rw h (ground arith)
