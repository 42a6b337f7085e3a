-- ===== src/Engine/Kv/Glob.antt =====
-- `matchGlob` and `globMatch` of internal/engine/kv.go. The indices into the pattern and the string are
-- the parts of them that are left.
pub mod Spec
pub mod Sound
pub mod Ends
use dbx_database_extreme.Base.{
  ℕ, zero, suc, ◌+◌, ◌*◌, Bool, true, false, ◌&&◌, ◌||◌, Bytes, Option, none, some, [], ◌∷◌, length,
  eqb, ◌==◌, if◌then◌else◌,
}

abbrev pub star_char : ℕ
star_char = 42

abbrev pub any_char : ℕ
any_char = 63

-- The loop behind the string.
unfoldable pub all_stars : Bytes → Bool
all_stars [] = true
all_stars (x ∷ p) = let rest = all_stars p in if x == star_char then rest else false

-- What stands behind the last star, and the string where its match was tried last.
abbrev pub Saved : Type 0
Saved = Option (Bytes × Bytes)

pub data GlobStep : Type 0 where
  stop : Bool → GlobStep
  go : Bytes → Bytes → Saved → GlobStep

-- The branch on `star != -1`; the string that is saved is not empty.
unfoldable pub retry : Saved → GlobStep
retry none = stop false
retry (some (q, [])) = stop false
retry (some (q, c ∷ m)) = go q m (some (q, m))

unfoldable pub glob_step : Bytes → Bytes → Saved → GlobStep
unfolding all_stars retry
glob_step p [] saved = stop (all_stars p)
glob_step [] (c ∷ s) saved = retry saved
glob_step (x ∷ p) (c ∷ s) saved =
    if x == any_char || x == c
    then go p s saved
    else if x == star_char
    then go p (c ∷ s) (some (p, c ∷ s))
    else retry saved

-- none: out of fuel.
unfoldable pub glob_loop : ℕ → Bytes → Bytes → Saved → Option Bool
unfolding glob_step
glob_loop zero p s saved = none
glob_loop (suc f) p s saved = elim (glob_step p s saved) [
  | stop b ↦ some b
  | go p' s' saved' ↦ glob_loop f p' s' saved'
]

-- Between two retries the pattern gets shorter; a retry makes the saved string shorter.
abbrev pub glob_fuel : Bytes → Bytes → ℕ
glob_fuel p s = (length p + 1) * (length s + 2) + 1

unfoldable pub glob_match : Bytes → Bytes → Option Bool
unfolding glob_loop
glob_match pattern str = glob_loop (glob_fuel pattern str) pattern str none

unfoldable pub match_glob : Bytes → Bytes → Option Bool
unfolding glob_match
match_glob pattern s = if eqb pattern (star_char ∷ []) then some true else glob_match pattern s
