-- ===== src/Engine/Kv/Glob/Ends.antt =====
-- The loop ends, with what the pattern means.
use dbx_database_extreme.Base.{
  ℕ, zero, suc, ◌+◌, ◌*◌, ◌≡◌, refl, ◌≤◌, ◌<◌, ◌∙◌, ap, sym, ◌≢◌, ==_iff, Bool, true, ◌||◌, Bytes,
  Option, none, some, [], ◌∷◌, arith, inl, inr, length, length-append, eqb, eqb_sound, ◌==◌,
  Bool-cases,
}
use dbx_database_extreme.Engine.Kv.Glob.{
  star_char, any_char, Saved, GlobStep, stop, go, retry, glob_step, glob_loop, glob_fuel,
  glob_match, match_glob,
}
use dbx_database_extreme.Engine.Kv.Glob.Spec.{glob, somewhere, IsPlainText}
use dbx_database_extreme.Engine.Kv.Glob.Sound.{later, found_by, IsReading, read_one, step-found}

-- The pattern and what stands behind its last star have m bytes at most.
abbrev IsBounded : ℕ → Bytes → Saved → Type 0
IsBounded m p none = length p ≤ m
IsBounded m p (some (q, t)) = (length p ≤ m) × (length q ≤ m)

abbrev weight : ℕ → Bytes → Bytes → Saved → ℕ
weight m p s none = length p + (m + 1) * (length s + 1)
weight m p s (some (q, t)) = length p + (m + 1) * length t

-- What a step that goes on keeps, and that it gets nearer to the end.
abbrev IsNearer : ℕ → ℕ → GlobStep → Type 0
IsNearer m w (stop b) = Unit
IsNearer m w (go p s saved) =
    IsReading p s saved × IsPlainText s × IsBounded m p saved × (weight m p s saved < w)

scaled : (k a b : ℕ) → a ≤ b → k * a ≤ k * b
scaled k a b h = grind arith

scaled_suc : (k t : ℕ) → k * suc t ≡ k * t + k
scaled_suc k t = grind arith

-- A byte of the pattern is read.
shorter :
    (m x c : ℕ) (p s : Bytes) (saved : Saved)
    → IsBounded m (x ∷ p) saved
    → IsBounded m p saved × (weight m p s saved < weight m (x ∷ p) (c ∷ s) saved)
shorter m x c p s none b = (omega arith, omega (arith, scaled_suc (m + 1) (length s + 1)))
shorter m x c p s (some (q, t)) b = ((omega (arith, b), b.1), omega arith)

-- A star is read: what is saved gets no longer.
starred :
    (m x c : ℕ) (p s : Bytes) (saved : Saved)
    → IsReading (x ∷ p) (c ∷ s) saved
    → IsBounded m (x ∷ p) saved
    → (length p ≤ m) × (length p + (m + 1) * length (c ∷ s) < weight m (x ∷ p) (c ∷ s) saved)
starred m x c p s none r b = (
  omega arith,
  omega (
    arith,
    scaled_suc (m + 1) (length (c ∷ s)),
    scaled (m + 1) (length (c ∷ s)) (length (c ∷ s) + 1) (omega arith),
  ),
)
starred m x c p s (some (q, t)) (u, v, k, a, e, l, plain) b =
    let size : length (c ∷ s) ≤ length t = omega (arith, ap length e, length-append v (c ∷ s)) in
    (omega (arith, b), omega (arith, scaled (m + 1) (length (c ∷ s)) (length t) size))

retry-IsNearer :
    (m : ℕ) (p s : Bytes) (saved : Saved)
    → IsReading p s saved
    → IsBounded m p saved
    → IsNearer m (weight m p s saved) (retry saved)
unfolding retry
retry-IsNearer m p s none r b = tt
retry-IsNearer m p s (some (q, [])) r b = tt
retry-IsNearer m p s (some (q, c ∷ t)) (u, v, k, a, e, l, plain) b = (
  ([], [], tt, refl, refl, refl, plain.1),
  plain.1,
  (b.1, b.1),
  omega (arith, scaled_suc (m + 1) (length t), b),
)

step-IsNearer :
    (m : ℕ) (p s : Bytes) (saved : Saved)
    → IsReading p s saved
    → IsPlainText s
    → IsBounded m p saved
    → IsNearer m (weight m p s saved) (glob_step p s saved)
unfolding glob_step
step-IsNearer m p [] saved r t b = tt
step-IsNearer m [] (c ∷ s) saved r t b = retry-IsNearer m [] (c ∷ s) saved r b
step-IsNearer m (x ∷ p) (c ∷ s) saved r t b = elim (Bool-cases (x == any_char || x == c)) [
  | inl e ↦
      let literal : x ≢ star_char = λ f. t.0 (sym ((==_iff x c).0 (ground (arith, e, f))) ∙ f) in
      let (bound, nearer) = shorter m x c p s saved b in
      rw e (read_one x c p s saved literal r, t.1, bound, nearer)
  | inr e ↦ elim (Bool-cases (x == star_char)) [
    | inl f ↦
        let (bound, nearer) = starred m x c p s saved r b in
        rw (e, f) (([], [], tt, refl, refl, refl, t), t, (bound, bound), nearer)
    | inr f ↦ rw (e, f) (retry-IsNearer m (x ∷ p) (c ∷ s) saved r b)
  ]
]

-- What is left of the loop behind a step.
finished :
    (f m w : ℕ) (g : GlobStep)
    → IsNearer m w g
    → w ≤ f
    → ((p s : Bytes) (saved : Saved)
        → IsReading p s saved
        → IsPlainText s
        → IsBounded m p saved
        → weight m p s saved < f
        → glob_loop f p s saved ≡ some (glob p s || later saved))
    → elim g as (λ x. Option Bool) [ stop b ↦ some b | go p s saved ↦ glob_loop f p s saved ]
      ≡ some (found_by g)
finished f m w (stop b) n h rec = refl
finished f m w (go p s saved) (r, t, b, nearer) h rec = rec p s saved r t b (omega arith)

loop-glob :
    (f m : ℕ) (p s : Bytes) (saved : Saved)
    → IsReading p s saved
    → IsPlainText s
    → IsBounded m p saved
    → weight m p s saved < f
    → glob_loop f p s saved ≡ some (glob p s || later saved)
unfolding glob_loop
loop-glob zero m p s saved r t b h = absurd (omega arith)
loop-glob (suc f) m p s saved r t b h =
    finished f m (weight m p s saved) (glob_step p s saved) (step-IsNearer m p s saved r t b)
      (omega arith) (loop-glob f m)
    ∙ ap some (step-found p s saved r t)

somewhere-end : (s : Bytes) → somewhere (glob []) s ≡ true
somewhere-end [] = refl
somewhere-end (c ∷ s) = somewhere-end s

-- For a string without a star, the loop of globMatch ends and answers whether the pattern means the
-- string: a star stands for any bytes, a question mark for one, another byte for itself.
pub match_glob-glob :
    (pattern s : Bytes) → IsPlainText s → match_glob pattern s ≡ some (glob pattern s)
unfolding match_glob glob_match
match_glob-glob pattern s t = elim (Bool-cases (eqb pattern (star_char ∷ []))) [
  | inl e ↦ rw (e, eqb_sound pattern (star_char ∷ []) e) (ap some (sym (somewhere-end s)))
  | inr e ↦ rw e (
      loop-glob (glob_fuel pattern s) (length pattern) pattern s none tt t (omega arith)
        (omega (arith, scaled_suc (length pattern + 1) (length s + 1)))
      ∙ ap some {y = glob pattern s} (ground arith))
]
