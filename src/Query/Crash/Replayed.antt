-- ===== src/Query/Crash/Replayed.antt =====
-- Recovery of effects that set or delete keys, with the clock at one time.
use dbx_database_extreme.Base.{
  ℕ, ◌+◌, ◌-◌, ◌≡◌, refl, ◌<◌, ◌≤◌, ◌^◌, ◌∙◌, ap, Bytes, none, some, List, [], ◌∷◌, All, inl, inr,
  arith, eqb, ltb, pos, if◌then◌else◌, Bool-cases, wrap64, wrap64_small, ◌-ℤ◌, pos_sub, pos_add,
  wrap64_pos, ◌&&◌, int_laws, leb_ℤ, negsuc, true, false, ltb_ℤ,
}
use dbx_database_extreme.Engine.Entry.{bytes_value, type_string}
use dbx_database_extreme.Engine.Kv.{
  KvStore, live, set_key, delete_keys, written_entry, deadline_after,
}
use dbx_database_extreme.Engine.Kv.Shards.{IsSharded}
use dbx_database_extreme.Engine.Kv.Find.{find-set_key, set_key-IsSharded}
use dbx_database_extreme.Engine.Kv.Expiry.{find-delete_keys}
use dbx_database_extreme.Persistence.Wal.Encode.{WalEffect}
use dbx_database_extreme.Persistence.Recovery.{
  install, recover_set, apply_recovered_effect, after_effect, replay_effects,
}
use dbx_database_extreme.Persistence.Recovery.Sound.{delete_keys-IsSharded}
use dbx_database_extreme.Query.Crash.View.{view, put_view, last_view, IsFinal, IsWrite, view-write}

-- A string written with the time to live that is left of its deadline.
pub set_key-IsWrite :
    (kv : KvStore) (key b : Bytes) (ttl d n : ℕ)
    → IsSharded kv
    → deadline_after (pos n) (pos ttl) ≡ pos d
    → IsWrite kv (set_key kv key (bytes_value b) type_string (pos ttl) (pos n)) key b d
set_key-IsWrite kv key b ttl d n h e = record {
  entry =
      written_entry kv key (bytes_value b) type_string (deadline_after (pos n) (pos ttl)) (pos n);
  has_value = unfold written_entry in refl;
  has_typ = unfold written_entry in refl;
  has_deadline = unfold written_entry in e;
  found = find-set_key kv h key (bytes_value b) type_string (pos ttl) (pos n);
}

pub deadline_after-none : (n : ℕ) → deadline_after (pos n) (pos 0) ≡ pos 0
unfolding deadline_after
deadline_after-none n = refl

pub deadline_after-some :
    (n t : ℕ) → 0 < t → n + t < 2 ^ 63 → deadline_after (pos n) (pos t) ≡ pos (n + t)
unfolding deadline_after
deadline_after-some n t p h = rw (pos_add n t) (rw (wrap64_pos (n + t) h) (ground arith))

view-delete_keys :
    (kv : KvStore) (key j : Bytes) (l : ℕ)
    → IsSharded kv
    → view (delete_keys kv (key ∷ [])).1 j l ≡ (if eqb key j then none else view kv j l)
view-delete_keys kv key j l h =
    rw (find-delete_keys kv (key ∷ []) j h)
      (elim (Bool-cases (eqb key j)) [ inl e ↦ rw e (unfold live in refl) | inr e ↦ rw e ])

neg_sub : (d r : ℕ) → d < r → pos d -ℤ pos r ≡ negsuc (r - d - 1)
neg_sub d r h = omega int_laws

remaining_over :
    (d r : ℕ) → d ≤ r → d < 2 ^ 63 → r < 2 ^ 63 → leb_ℤ (wrap64 (pos d -ℤ pos r)) (pos 0) ≡ true
remaining_over d r h k m = elim (Bool-cases (ltb d r)) [
  | inl e ↦
      rw (neg_sub d r (ground arith), wrap64_small (negsuc (r - d - 1)) (omega arith, omega arith))
        (ground arith)
  | inr e ↦ rw (pos_sub d r (ground arith), wrap64_pos (d - r) (omega arith)) (ground arith)
]

pub remaining_left : (d r : ℕ) → r < d → d < 2 ^ 63 → wrap64 (pos d -ℤ pos r) ≡ pos (d - r)
remaining_left d r h k = rw (pos_sub d r (omega arith)) (wrap64_pos (d - r) (omega arith))

module _ (kv : KvStore) (h : IsSharded kv) (e : WalEffect) (r : ℕ) (m : r < 2 ^ 63) where
  written :
      (kv' : KvStore) (d : ℕ) (j : Bytes) (l : ℕ)
      → IsSharded kv'
      → IsWrite kv kv' e.key e.value d
      → IsSharded kv' × (view kv' j l ≡ (if eqb e.key j then put_view e.value d l else view kv j l))
  written kv' d j l s w = (s, view-write kv kv' e.key e.value d j l w)

  -- What a set of a deadline d leaves, for a reader behind the recovery.
  recover_set-view :
      (d : ℕ) (j : Bytes) (l : ℕ)
      → e.expires_at ≡ pos d
      → d < 2 ^ 63
      → r < l
      → IsSharded (recover_set kv e (pos r) (pos r))
        × (view (recover_set kv e (pos r) (pos r)) j l
            ≡ (if eqb e.key j then put_view e.value d l else view kv j l))
  unfolding recover_set install
  recover_set-view d j l x k q = rw x (elim (Bool-cases (ltb_ℤ (pos 0) (pos d))) [
    | inl c ↦ rw c (elim (Bool-cases (ltb r d)) [
      | inl a ↦
          let ahead : leb_ℤ (pos (d - r)) (pos 0) ≡ false = ground (arith, a) in
          rw (remaining_left d r (ground arith) k, ahead)
            (written (set_key kv e.key (bytes_value e.value) type_string (pos (d - r)) (pos r)) d j
              l
              (set_key-IsSharded kv h e.key (bytes_value e.value) type_string (pos (d - r)) (pos r))
              (set_key-IsWrite kv e.key e.value (d - r) d r h (
                deadline_after-some r (d - r) (ground arith) (ground arith)
                ∙ ap pos {x = r + (d - r)} (ground arith))))
      | inr a ↦
          let past : (ltb 0 d && ltb d l) ≡ true = ground (arith, a, c) in
          rw (remaining_over d r (ground arith) k m, past)
            (delete_keys-IsSharded kv e.key h, view-delete_keys kv e.key j l h)
    ])
    | inr c ↦
        let zero_deadline : d ≡ 0 = ground (arith, c) in
        rw c (
          written (set_key kv e.key (bytes_value e.value) type_string (pos 0) (pos r)) d j l
            (set_key-IsSharded kv h e.key (bytes_value e.value) type_string (pos 0) (pos r))
            (set_key-IsWrite kv e.key e.value 0 d r h
              (deadline_after-none r ∙ ap pos {y = d} (ground arith))))
  ])

  apply_recovered_effect-view :
      (j : Bytes) (l : ℕ)
      → IsFinal e
      → r < l
      → (kv' : KvStore) × (apply_recovered_effect kv e (pos r) (pos r) (pos r) ≡ some kv')
        × IsSharded kv'
        × (view kv' j l ≡ last_view (e ∷ []) j l (view kv j l))
  unfolding apply_recovered_effect
  apply_recovered_effect-view j l (inl (t, (d, x, k))) q =
      let (s, v) = recover_set-view d j l x k q in
      (recover_set kv e (pos r) (pos r), rw t, s, rw t (v ∙ rw x))
  apply_recovered_effect-view j l (inr t) q = (
    (delete_keys kv (e.key ∷ [])).1,
    rw t,
    delete_keys-IsSharded kv e.key h,
    rw t (view-delete_keys kv e.key j l h),
  )

-- Recovery at time r leaves what the effects say, to a reader behind it.
pub replay_effects-view :
    (kv : KvStore) (es : List WalEffect) (r n : ℕ) (j : Bytes) (l : ℕ)
    → IsSharded kv
    → All IsFinal es
    → r < 2 ^ 63
    → r < l
    → (kv' : KvStore) × (replay_effects (λ i. pos r) n kv es ≡ some kv')
      × (view kv' j l ≡ last_view es j l (view kv j l))
unfolding replay_effects
replay_effects-view kv [] r n j l h f m q = (kv, refl, refl)
replay_effects-view kv (e ∷ es) r n j l h f m q =
    let (mid, a, s, v) = apply_recovered_effect-view kv h e r m j l f.0 q in
    let (last, b, w) = replay_effects-view mid es r (n + 3) j l s f.1 m q in
    (last, rw (a, after_effect) b, w ∙ ap (last_view es j l) v)

-- A set whose deadline has come deletes its key.
pub recover_set-due :
    (kv : KvStore) (e : WalEffect) (d r : ℕ)
    → e.expires_at ≡ pos d
    → 0 < d
    → d ≤ r
    → r < 2 ^ 63
    → recover_set kv e (pos r) (pos r) ≡ (delete_keys kv (e.key ∷ [])).1
unfolding recover_set
recover_set-due kv e d r x p q m =
    let timed : ltb_ℤ (pos 0) (pos d) ≡ true = ground (arith, p) in
    rw x (rw (timed, remaining_over d r q (omega arith) m))
