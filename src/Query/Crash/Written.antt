-- ===== src/Query/Crash/Written.antt =====
-- The commands that write one key: what each does is what its effects say.
use dbx_database_extreme.Base.{
  ℕ, ◌+◌, ◌*◌, ◌≡◌, ◌<◌, ◌^◌, ◌∙◌, ap, false, ◌&&◌, Bytes, none, some, [], ◌∷◌, ◌⊎◌, inl, inr,
  arith, eqb, ltb, ℤ, pos, ltb_ℤ, if◌then◌else◌, Bool-cases, Option-cases, wrap64, wrap64_pos,
  scale, pos_add,
}
use dbx_database_extreme.Engine.Entry.{Entry, bytes_value, type_string, is_expired}
use dbx_database_extreme.Engine.Kv.{
  KvStore, second, find, get, live, set_key, deadline_after, exists_key,
}
use dbx_database_extreme.Engine.Kv.Shards.{IsSharded}
use dbx_database_extreme.Engine.Kv.Find.{set_key-IsSharded}
use dbx_database_extreme.Engine.Strings.{set_string}
use dbx_database_extreme.Engine.Strings.SetArgs.{SetArgs}
use dbx_database_extreme.Query.Effects.{
  absent, holding, string_state, state_of, put, deadline_at, set_effect,
}
use dbx_database_extreme.Query.Crash.View.{IsClean, IsStep, write-IsStep, same-IsStep}
use dbx_database_extreme.Query.Crash.Replayed.{
  set_key-IsWrite, deadline_after-none, deadline_after-some,
}

-- The deadline of a write at time n for s seconds, 0 for none.
abbrev pub deadline_of : ℕ → ℕ → ℕ
deadline_of n s = if ltb 0 s then n + second * s else 0

pub deadline-effect :
    (n s : ℕ)
    → n + second * s < 2 ^ 63
    → (if ltb_ℤ (pos 0) (pos s) then deadline_at (pos n) (pos s) else pos 0) ≡ pos (deadline_of n s)
unfolding deadline_at
deadline-effect n s h =
    rw
      (wrap64_pos (second * s) (omega arith), pos_add n (second * s), wrap64_pos (n + second * s) h)
      (ground arith)

pub deadline-written :
    (n s : ℕ)
    → n + second * s < 2 ^ 63
    → deadline_after (pos n) (pos (second * s)) ≡ pos (deadline_of n s)
deadline-written n s h = elim (Bool-cases (ltb 0 s)) [
  | inl c ↦ rw c (deadline_after-some n (second * s) (ground (arith, c)) h)
  | inr c ↦
      rw c (
        ap (λ t. deadline_after (pos n) (pos t)) {y = 0} (ground (arith, c))
        ∙ deadline_after-none n)
]

pub get-find :
    (kv : KvStore) (key : Bytes) (n : ℤ) (e : Entry) → get kv key n ≡ some e → find kv key ≡ some e
unfolding get live
get-find kv key n e g = elim (Option-cases (find kv key)) [
  | inl f ↦ absurd (let b = rw f at g in cc)
  | inr (x, f) ↦ elim (Bool-cases (is_expired x n)) [
    | inl t ↦ absurd (let b = rw (f, t) at g in cc)
    | inr t ↦ f ∙ rw (f, t) at g
  ]
]

state_of-string :
    (e : Entry) (b : Bytes) (d : ℕ)
    → e.value ≡ bytes_value b
    → e.typ ≡ type_string
    → e.expires_at ≡ pos d
    → state_of (some e) ≡ holding b (pos d)
unfolding state_of eqb
state_of-string e b d v t x = rw (t, v, x)

-- The string that a command finds at time n.
pub record IsHeld (kv : KvStore) (key : Bytes) (n : ℕ) : Type 0 where
  pub entry : Entry
  pub held : Bytes
  pub due : ℕ
  pub found : get kv key (pos n) ≡ some entry
  pub has_state : string_state kv key (pos n) ≡ holding held (pos due)
  pub has_value : entry.value ≡ bytes_value held
  pub has_typ : entry.typ ≡ type_string
  pub has_deadline : entry.expires_at ≡ pos due
  pub in_range : due < 2 ^ 63

pub string_state-cases :
    (kv : KvStore) (key : Bytes) (n : ℕ)
    → IsClean kv
    → ((get kv key (pos n) ≡ none) × (string_state kv key (pos n) ≡ absent)) ⊎ IsHeld kv key n
unfolding string_state state_of
string_state-cases kv key n c = elim (Option-cases (get kv key (pos n))) [
  | inl g ↦ inl (g, rw g)
  | inr (e, g) ↦
      let (b, d, v, t, x, r) = c key e (get-find kv key (pos n) e g) in
      inr (record {
        entry = e;
        held = b;
        due = d;
        found = g;
        has_state = ap state_of g ∙ state_of-string e b d v t x;
        has_value = v;
        has_typ = t;
        has_deadline = x;
        in_range = r;
      })
]

module _ (kv : KvStore) (c : IsClean kv) (h : IsSharded kv) (key : Bytes) (n : ℕ) where
  pub set_key-IsStep :
      (b : Bytes) (ttl d : ℕ)
      → d < 2 ^ 63
      → deadline_after (pos n) (pos ttl) ≡ pos d
      → IsStep kv
          (set_key kv key (bytes_value b) type_string (pos ttl) (pos n))
          (put key b (pos d) ∷ [])
          n
  set_key-IsStep b ttl d r e =
      write-IsStep kv _ key b d n c r
        (set_key-IsSharded kv h key (bytes_value b) type_string (pos ttl) (pos n))
        (set_key-IsWrite kv key b ttl d n h e)

  -- A write for s seconds, 0 for ever.
  pub timed-IsStep :
      (b : Bytes) (s : ℕ)
      → n + second * s < 2 ^ 63
      → IsStep kv
          (set_key kv key (bytes_value b) type_string (wrap64 (scale second (pos s))) (pos n))
          (put key b (if ltb_ℤ (pos 0) (pos s) then deadline_at (pos n) (pos s) else pos 0) ∷ [])
          n
  timed-IsStep b s r =
      rw (deadline-effect n s r, wrap64_pos (second * s) (omega arith))
        (set_key-IsStep b (second * s) (deadline_of n s) (ground arith) (deadline-written n s r))

  pub set_string-IsStep :
      (a : SetArgs) (s : ℕ)
      → a.ttl_sec ≡ pos s
      → n + second * s < 2 ^ 63
      → IsStep kv
          (set_string kv key a.value a.ttl_sec a.nx a.xx (pos n) (pos n) (pos n)).1
          (set_effect key (string_state kv key (pos n)) a (pos n))
          n
  unfolding set_string exists_key set_effect
  set_string-IsStep a s t r = elim (string_state-cases kv key n c) [
    | inl (g, st) ↦
        rw (g, st, set_effect, t)
          (let nx_off : (a.nx && false) ≡ false = ground arith in
            rw nx_off (elim (Bool-cases a.xx) [
              | inl x ↦ rw x (same-IsStep kv n c h)
              | inr x ↦ rw x (timed-IsStep a.value s r)
            ]))
    | inr w ↦
        rw (w.found, w.has_state, set_effect, t)
          (let xx_off : (a.xx && false) ≡ false = ground arith in
            rw xx_off (elim (Bool-cases a.nx) [
              | inl x ↦ rw x (same-IsStep kv n c h)
              | inr x ↦ rw x (timed-IsStep a.value s r)
            ]))
  ]
