-- ===== src/Engine/Kv/Glob/Sound.antt =====
-- The loop finds what the pattern means, for a string without a star.
use dbx_database_extreme.Base.{
  ℕ, suc, ◌+◌, ◌≡◌, refl, ◌≢◌, ◌∙◌, ap, sym, Bool, true, false, ◌||◌, Bytes, none, some, [], ◌∷◌,
  ◌++◌, All-append, arith, inl, inr, length, length-append, drop, ◌==◌, Bool-cases, subst, ==_iff,
}
use dbx_database_extreme.Engine.Kv.Glob.{
  star_char, any_char, Saved, GlobStep, stop, go, retry, glob_step,
}
use dbx_database_extreme.Engine.Kv.Glob.Spec.{
  glob, somewhere, IsPlainText, glob-nil, somewhere-short, somewhere-glob, somewhere-twice,
  somewhere-drop,
}

-- What the saved place can still find: the string is read from one byte further on.
abbrev pub later : Saved → Bool
later none = false
later (some (q, [])) = false
later (some (q, c ∷ m)) = somewhere (glob q) m

-- Since the last star, the pattern has read bytes without a star.
abbrev pub IsReading : Bytes → Bytes → Saved → Type 0
IsReading p s none = Unit
IsReading p s (some (q, m)) =
    (u : Bytes) × (v : Bytes) × IsPlainText u
    × (q ≡ u ++ p)
    × (m ≡ v ++ s)
    × (length v ≡ length u)
    × IsPlainText m

-- What is found from a step on.
abbrev pub found_by : GlobStep → Bool
found_by (stop b) = b
found_by (go p s saved) = glob p s || later saved

append_one : (u p : Bytes) (x : ℕ) → (u ++ x ∷ []) ++ p ≡ u ++ x ∷ p
append_one [] p x = refl
append_one (y ∷ u) p x = ap (λ t. y ∷ t) (append_one u p x)

drop_one : (v s : Bytes) → drop (suc (length v)) (v ++ s) ≡ drop 1 s
drop_one [] s = refl
drop_one (x ∷ v) s = drop_one v s

pub read_one :
    (x c : ℕ) (p s : Bytes) (saved : Saved)
    → x ≢ star_char
    → IsReading (x ∷ p) (c ∷ s) saved
    → IsReading p s saved
read_one x c p s none n r = tt
read_one x c p s (some (q, m)) n (u, v, k, a, b, l, t) = (
  u ++ x ∷ [],
  v ++ c ∷ [],
  All-append _ u (x ∷ []) k (n, tt),
  a ∙ sym (append_one u p x),
  b ∙ sym (append_one v s c),
  omega (arith, length-append u (x ∷ []), length-append v (c ∷ []), l),
  t,
)

-- At the end of the string nothing is found further on.
later-end : (p : Bytes) (saved : Saved) → IsReading p [] saved → later saved ≡ false
later-end p none r = refl
later-end p (some (q, [])) r = refl
later-end p (some (q, c ∷ m)) (u, v, k, a, b, l, t) =
    let size : length m + 1 ≡ length v = omega (arith, ap length b, length-append v []) in
    rw a (somewhere-short u p m k (omega (arith, size, l)))

-- What a star finds from here on, an older one finds too late.
later-star :
    (p s : Bytes) (saved : Saved)
    → IsReading (star_char ∷ p) s saved
    → later saved ≡ true
    → somewhere (glob p) s ≡ true
later-star p s none r h = absurd (cc)
later-star p s (some (q, [])) r h = absurd (cc)
later-star p s (some (q, c ∷ m)) (u, v, k, a, b, l, t) h =
    let further = somewhere-glob u (star_char ∷ p) m k (rw a at h) in
    let rest : drop (length u) m ≡ drop 1 s =
      ap (drop (suc (length u))) b ∙ (ap (λ n. drop (suc n) (v ++ s)) (sym l) ∙ drop_one v s) in
    somewhere-drop (glob p) 1 s (rw rest at (somewhere-twice (glob p) (drop (length u) m) further))

retry-found : (saved : Saved) → found_by (retry saved) ≡ later saved
unfolding retry
retry-found none = refl
retry-found (some (q, [])) = refl
retry-found (some (q, c ∷ [])) = ground arith
retry-found (some (q, c ∷ d ∷ m)) = refl

absorb : (a b : Bool) → (b ≡ true → a ≡ true) → a ≡ (a || b)
absorb true b h = refl
absorb false true h = h refl
absorb false false h = refl

-- A step keeps what is found.
pub step-found :
    (p s : Bytes) (saved : Saved)
    → IsReading p s saved
    → IsPlainText s
    → found_by (glob_step p s saved) ≡ (glob p s || later saved)
unfolding glob_step
step-found p [] saved r t = rw (glob-nil p, later-end p saved r) (ground arith)
step-found [] (c ∷ s) saved r t = retry-found saved
step-found (x ∷ p) (c ∷ s) saved r t = elim (Bool-cases (x == any_char || x == c)) [
  | inl e ↦ let literal : (x == star_char) ≡ false = ground (arith, e, t.0) in rw e (rw literal)
  | inr e ↦ elim (Bool-cases (x == star_char)) [
    | inl f ↦
        let older : later saved ≡ true → somewhere (glob p) (c ∷ s) ≡ true =
          later-star p (c ∷ s) saved
            (subst (λ y. IsReading (y ∷ p) (c ∷ s) saved) ((==_iff x star_char).0 f) r) in
        rw (e, f) (absorb (somewhere (glob p) (c ∷ s)) (later saved) older)
    | inr f ↦ rw (e, f) (retry-found saved)
  ]
]
