-- ===== src/Query/Crash/Removed.antt =====
-- DEL.
use dbx_database_extreme.Base.{
  ℕ, suc, ◌≡◌, refl, ◌<◌, false, Bytes, none, List, [], ◌∷◌, All, inl, inr, arith, eqb, eqb_sound,
  is_some, ℤ, pos, if◌then◌else◌, Bool-cases, Option-cases,
}
use dbx_database_extreme.Engine.Entry.{is_expired}
use dbx_database_extreme.Engine.Kv.{KvStore, find, get, live, exists_key, delete_keys, remove}
use dbx_database_extreme.Engine.Kv.Shards.{IsSharded, remove-IsSharded}
use dbx_database_extreme.Engine.Kv.Expiry.{contains, find-delete_keys}
use dbx_database_extreme.Query.Effects.{deletion, delete_existing}
use dbx_database_extreme.Query.Crash.View.{view, last_view, IsClean, IsFinal, IsStep}

pub delete_keys_all-IsSharded :
    (kv : KvStore) (keys : List Bytes) → IsSharded kv → IsSharded (delete_keys kv keys).1
unfolding delete_keys
delete_keys_all-IsSharded kv [] h = h
delete_keys_all-IsSharded kv (key ∷ keys) h = elim (Bool-cases (is_some (find kv key))) [
  | inl e ↦ rw e (delete_keys_all-IsSharded (remove kv key) keys (remove-IsSharded kv h key))
  | inr e ↦ rw e (delete_keys_all-IsSharded kv keys h)
]

pub delete_keys-IsClean :
    (kv : KvStore) (keys : List Bytes) → IsSharded kv → IsClean kv → IsClean (delete_keys kv keys).1
delete_keys-IsClean kv keys h c j e f = elim (Bool-cases (contains keys j)) [
  | inl k ↦ absurd (let b = rw (find-delete_keys kv keys j h, k) at f in cc)
  | inr k ↦ c j e (rw (find-delete_keys kv keys j h, k) at f)
]

delete_existing-IsFinal :
    (kv : KvStore) (keys : List Bytes) (clock : ℕ → ℤ) (i : ℕ)
    → All IsFinal (delete_existing kv keys clock i)
unfolding delete_existing deletion
delete_existing-IsFinal kv [] clock i = tt
delete_existing-IsFinal kv (k ∷ keys) clock i = elim (Bool-cases (exists_key kv k (clock i))) [
  | inl e ↦ rw e (inr refl, delete_existing-IsFinal kv keys clock (suc i))
  | inr e ↦ rw e (delete_existing-IsFinal kv keys clock (suc i))
]

last_view-none :
    (kv : KvStore) (keys : List Bytes) (n i : ℕ) (j : Bytes) (l : ℕ)
    → last_view (delete_existing kv keys (λ x. pos n) i) j l none ≡ none
unfolding delete_existing deletion
last_view-none kv [] n i j l = refl
last_view-none kv (k ∷ keys) n i j l = elim (Bool-cases (exists_key kv k (pos n))) [
  | inl e ↦ elim (Bool-cases (eqb k j)) [
    | inl d ↦ rw (e, last_view) (rw d (last_view-none kv keys n (suc i) j l))
    | inr d ↦ rw (e, last_view) (rw d (last_view-none kv keys n (suc i) j l))
  ]
  | inr e ↦ rw e (last_view-none kv keys n (suc i) j l)
]

-- A key that the clock of the command finds expired shows nothing later.
absent-view :
    (kv : KvStore) (j : Bytes) (n l : ℕ)
    → n < l
    → exists_key kv j (pos n) ≡ false
    → view kv j l ≡ none
unfolding exists_key get live is_expired
absent-view kv j n l q a = elim (Option-cases (find kv j)) [
  | inl f ↦ rw (f, live)
  | inr (e, f) ↦ let b = rw (f, live) at a in rw (f, live) (ground (arith, b))
]

delete_existing-view :
    (kv : KvStore) (keys : List Bytes) (n i : ℕ) (j : Bytes) (l : ℕ)
    → n < l
    → last_view (delete_existing kv keys (λ x. pos n) i) j l (view kv j l)
      ≡ (if contains keys j then none else view kv j l)
unfolding delete_existing deletion
delete_existing-view kv [] n i j l q = refl
delete_existing-view kv (k ∷ keys) n i j l q = elim (Bool-cases (eqb k j)) [
  | inl d ↦ elim (Bool-cases (exists_key kv k (pos n))) [
    | inl e ↦ rw (e, last_view) (rw d (last_view-none kv keys n (suc i) j l))
    | inr e ↦
        let gone : view kv j l ≡ none = absent-view kv j n l q (rw (eqb_sound k j d) at e) in
        rw (e, last_view) (rw (d, gone) (last_view-none kv keys n (suc i) j l))
  ]
  | inr d ↦ elim (Bool-cases (exists_key kv k (pos n))) [
    | inl e ↦ rw (e, last_view) (rw d (delete_existing-view kv keys n (suc i) j l q))
    | inr e ↦ rw e (rw d (delete_existing-view kv keys n (suc i) j l q))
  ]
]

pub delete_keys-IsStep :
    (kv : KvStore) (keys : List Bytes) (n i : ℕ)
    → IsClean kv
    → IsSharded kv
    → IsStep kv (delete_keys kv keys).1 (delete_existing kv keys (λ x. pos n) i) n
delete_keys-IsStep kv keys n i c h = record {
  final = delete_existing-IsFinal kv keys (λ x. pos n) i;
  sharded = delete_keys_all-IsSharded kv keys h;
  clean = delete_keys-IsClean kv keys h c;
  follows = λ j l q.
      rw (delete_existing-view kv keys n i j l q, find-delete_keys kv keys j h)
        (elim (Bool-cases (contains keys j)) [ inl e ↦ rw e (unfold live in refl) | inr e ↦ rw e ]);
}
