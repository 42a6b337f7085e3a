-- ===== src/Engine/Kv/Glob/Spec.antt =====
-- What a pattern means, and what a match of a pattern without a star consumes.
use dbx_database_extreme.Base.{
  ℕ, zero, suc, ◌≡◌, refl, ◌<◌, ◌≢◌, Bool, true, false, ◌&&◌, ◌||◌, Bytes, [], ◌∷◌, ◌++◌, All,
  arith, length, drop, ◌==◌, if◌then◌else◌, Bool-cases, inl, inr,
}
use dbx_database_extreme.Engine.Kv.Glob.{star_char, any_char, all_stars}

-- At some place of the string, its end included.
abbrev pub somewhere : (Bytes → Bool) → Bytes → Bool
somewhere g [] = g []
somewhere g (c ∷ s) = g (c ∷ s) || somewhere g s

abbrev pub one_char : ℕ → (Bytes → Bool) → Bytes → Bool
one_char x g [] = false
one_char x g (c ∷ s) = (x == any_char || x == c) && g s

-- A star stands for any bytes, a question mark for one, another byte for itself.
abbrev pub glob : Bytes → Bytes → Bool
glob [] [] = true
glob [] (c ∷ s) = false
glob (x ∷ p) s =
    let g : Bytes → Bool = glob p in if x == star_char then somewhere g s else one_char x g s

abbrev pub IsPlainText : Bytes → Type 0
IsPlainText s = All (λ c. c ≢ star_char) s

pub glob-nil : (p : Bytes) → glob p [] ≡ all_stars p
unfolding all_stars
glob-nil [] = refl
glob-nil (x ∷ p) = ground (arith, glob-nil p)

pub somewhere-here : (g : Bytes → Bool) (s : Bytes) → g s ≡ true → somewhere g s ≡ true
somewhere-here g [] h = h
somewhere-here g (c ∷ s) h = ground (arith, h)

pub somewhere-twice :
    (g : Bytes → Bool) (s : Bytes) → somewhere (λ t. somewhere g t) s ≡ true → somewhere g s ≡ true
somewhere-twice g [] h = h
somewhere-twice g (c ∷ s) h = ground (arith, h, somewhere-twice g s)

pub somewhere-drop :
    (g : Bytes → Bool) (n : ℕ) (s : Bytes) → somewhere g (drop n s) ≡ true → somewhere g s ≡ true
somewhere-drop g zero s h = h
somewhere-drop g (suc n) [] h = h
somewhere-drop g (suc n) (c ∷ s) h = ground (arith, somewhere-drop g n s h)

-- Bytes without a star are matched one by one.
glob-drop :
    (u r t : Bytes) → IsPlainText u → glob (u ++ r) t ≡ true → glob r (drop (length u) t) ≡ true
glob-drop [] r t n h = h
glob-drop (x ∷ u) r [] n h = absurd (ground (arith, n.0, h))
glob-drop (x ∷ u) r (c ∷ t) n h = ground (arith, n.0, h, glob-drop u r t n.1)

glob-short : (u r t : Bytes) → IsPlainText u → length t < length u → glob (u ++ r) t ≡ false
glob-short [] r t n h = absurd (omega arith)
glob-short (x ∷ u) r [] n h = ground (arith, n.0)
glob-short (x ∷ u) r (c ∷ t) n h = ground (arith, n.0, glob-short u r t n.1)

pub somewhere-short :
    (u r t : Bytes) → IsPlainText u → length t < length u → somewhere (glob (u ++ r)) t ≡ false
somewhere-short u r [] n h = glob-short u r [] n h
somewhere-short u r (c ∷ t) n h =
    rw (glob-short u r (c ∷ t) n h, somewhere-short u r t n (omega arith))

drop-suc :
    (g : Bytes → Bool) (n : ℕ) (c : ℕ) (t : Bytes)
    → somewhere g (drop n t) ≡ true
    → somewhere g (drop n (c ∷ t)) ≡ true
drop-suc g zero c t h = ground (arith, h)
drop-suc g (suc zero) c [] h = h
drop-suc g (suc (suc n)) c [] h = h
drop-suc g (suc n) c (d ∷ t) h = drop-suc g n d t h

-- A match further on, behind bytes without a star, is one of the rest behind as many bytes.
pub somewhere-glob :
    (u r t : Bytes)
    → IsPlainText u
    → somewhere (glob (u ++ r)) t ≡ true
    → somewhere (glob r) (drop (length u) t) ≡ true
somewhere-glob u r [] n h = somewhere-here (glob r) _ (glob-drop u r [] n h)
somewhere-glob u r (c ∷ t) n h = elim (Bool-cases (glob (u ++ r) (c ∷ t))) [
  | inl e ↦ somewhere-here (glob r) _ (glob-drop u r (c ∷ t) n e)
  | inr e ↦ drop-suc (glob r) (length u) c t (somewhere-glob u r t n (rw e at h))
]
