-- ===== src/Query/Crash/Renamed.antt =====
-- RENAME.
use dbx_database_extreme.Base.{
  ℕ, ◌+◌, ◌-◌, ◌≡◌, ◌≢◌, ◌<◌, ◌≤◌, ◌^◌, ◌∙◌, ap, false, Bytes, Option, none, some, [], ◌∷◌, ◌⊎◌,
  inl, inr, arith, eqb, eqb_iff, leb_ℤ, ltb_ℤ, pos, Bool-cases,
}
use dbx_database_extreme.Engine.Entry.{Entry, bytes_value, type_string, is_expired}
use dbx_database_extreme.Engine.Kv.{
  KvStore, find, get, live, exists_key, delete_keys, set_key, rename, rename_entry, closed_value,
  deadline_after,
}
use dbx_database_extreme.Engine.Kv.Shards.{IsSharded}
use dbx_database_extreme.Query.Effects.{
  string_state, put, deletion, delete_existing, rename_effects,
}
use dbx_database_extreme.Query.Crash.View.{
  Content, view, last_view, IsClean, IsStep, same-IsStep, join-IsStep,
}
use dbx_database_extreme.Query.Crash.Replayed.{
  deadline_after-none, deadline_after-some, remaining_left,
}
use dbx_database_extreme.Query.Crash.Written.{IsHeld, string_state-cases, set_key-IsStep}
use dbx_database_extreme.Query.Crash.Removed.{delete_keys-IsStep}

-- What is found has not expired.
live-current :
    (o : Option Entry) (e : Entry) (d n : ℕ)
    → live o (pos n) ≡ some e
    → e.expires_at ≡ pos d
    → (d ≡ 0) ⊎ (n ≤ d)
unfolding live is_expired
live-current none e d n g x = absurd (cc)
live-current (some y) e d n g x = elim (Bool-cases (is_expired y (pos n))) [
  | inl t ↦ absurd (let b = rw t at g in cc)
  | inr t ↦
      let b : some y ≡ some e = rw t at g in let same : y ≡ e = cc in ground (arith, t, x, same)
]

swap-view :
    (key new b : Bytes) (d : ℕ) (j : Bytes) (l : ℕ) (before : Option Content)
    → eqb key new ≡ false
    → last_view (deletion key ∷ put new b (pos d) ∷ []) j l before
      ≡ last_view (put new b (pos d) ∷ deletion key ∷ []) j l before
unfolding deletion put
swap-view key new b d j l before h = ground (arith, eqb_iff key j, eqb_iff new j, eqb_iff key new)

swap-IsStep :
    (kv kv' : KvStore) (key new b : Bytes) (d n : ℕ)
    → eqb key new ≡ false
    → IsStep kv kv' (deletion key ∷ put new b (pos d) ∷ []) n
    → IsStep kv kv' (put new b (pos d) ∷ deletion key ∷ []) n
swap-IsStep kv kv' key new b d n h s = record {
  final = (s.final.1.0, (s.final.0, tt));
  sharded = s.sharded;
  clean = s.clean;
  follows = λ j l q. s.follows j l q ∙ swap-view key new b d j l (view kv j l) h;
}

module _ (kv : KvStore) (c : IsClean kv) (h : IsSharded kv) (key new : Bytes) (n : ℕ)
    (other : eqb key new ≡ false) where
  deleted-IsStep : IsHeld kv key n → IsStep kv (delete_keys kv (key ∷ [])).1 (deletion key ∷ []) n
  deleted-IsStep w =
      let s : IsStep kv (delete_keys kv (key ∷ [])).1 (delete_existing kv (key ∷ []) (λ x. pos n) 0)
          n =
        delete_keys-IsStep kv (key ∷ []) n 0 c h in
      let one : delete_existing kv (key ∷ []) (λ x. pos n) 0 ≡ deletion key ∷ [] =
        unfold delete_existing exists_key in rw w.found in
      rw one at s

  moved-IsStep :
      (w : IsHeld kv key n) (ttl : ℕ)
      → deadline_after (pos n) (pos ttl) ≡ pos w.due
      → IsStep kv
          (set_key
            (delete_keys kv (key ∷ [])).1
            new
            (bytes_value w.held)
            type_string
            (pos ttl)
            (pos n))
          (put new w.held (pos w.due) ∷ deletion key ∷ [])
          n
  moved-IsStep w ttl e =
      let s = deleted-IsStep w in
      swap-IsStep kv _ key new w.held w.due n other (
        join-IsStep kv _ _ (deletion key ∷ []) (put new w.held (pos w.due) ∷ []) n n (omega arith) s
          (set_key-IsStep (delete_keys kv (key ∷ [])).1 s.clean s.sharded new n w.held ttl w.due
            w.in_range e))

  deadline-ahead :
      (w : IsHeld kv key n)
      → ((e : Entry) → get kv key (pos n) ≡ some e → e.expires_at ≢ pos n)
      → 0 < w.due
      → n < w.due
  unfolding get
  deadline-ahead w later p =
      let apart : w.due ≢ n = λ x. later w.entry w.found (w.has_deadline ∙ ap pos x) in
      let current = live-current (find kv key) w.entry w.due n w.found w.has_deadline in
      ground (arith, apart, current)

  -- With a deadline that is not this very instant.
  pub rename-IsStep :
      ((e : Entry) → get kv key (pos n) ≡ some e → e.expires_at ≢ pos n)
      → n < 2 ^ 63
      → IsStep kv
          (rename kv key new (pos n) (pos n) (pos n)).1
          (rename_effects key new (string_state kv key (pos n)))
          n
  unfolding rename rename_effects rename_entry closed_value eqb
  rename-IsStep later m = elim (string_state-cases kv key n c) [
    | inl (g, st) ↦ rw (g, st, rename_effects, rename_entry) (same-IsStep kv n c h)
    | inr w ↦
        rw
          (
            w.found, w.has_state, rename_effects, rename_entry, w.has_value, w.has_typ,
            w.has_deadline,
          )
          (elim (Bool-cases (ltb_ℤ (pos 0) (pos w.due))) [
            | inl p ↦
                let ahead = deadline-ahead w later (ground (arith, p)) in
                let left : leb_ℤ (pos (w.due - n)) (pos 0) ≡ false = ground (arith, ahead) in
                rw (p, remaining_left w.due n ahead w.in_range, left)
                  (moved-IsStep w (w.due - n) (
                    deadline_after-some n (w.due - n) (omega arith) (omega (arith, w.in_range))
                    ∙ ap pos {x = n + (w.due - n)} (omega arith)))
            | inr p ↦
                rw p (
                  moved-IsStep w 0 (deadline_after-none n ∙ ap pos {y = w.due} (ground (arith, p))))
          ])
  ]
