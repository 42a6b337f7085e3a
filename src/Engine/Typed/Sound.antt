-- ===== src/Engine/Typed/Sound.antt =====
-- A write of a typed store is a function on the contents that the key shows.
use dbx_database_extreme.Base.{
  ◌≡◌, refl, ◌∙◌, sym, ap, true, false, Bytes, Option, none, some, arith, eqb, eqb_refl, ℤ, pos,
  inl, inr, if◌then◌else◌, Bool-cases,
}
use dbx_database_extreme.Engine.Entry.{Entry, fresh_entry, is_expired}
use dbx_database_extreme.Engine.Kv.{KvStore, find, get, live, get_for_write}
use dbx_database_extreme.Engine.Kv.Shards.{IsSharded, find-store, store-IsSharded}
use dbx_database_extreme.Engine.Kv.Expiry.{get_for_write-get, get_for_write-IsSharded}
use dbx_database_extreme.Engine.Typed.{
  Kind, Answer, Opened, opened, refused, not_asserted, assert_kind, create, get_or_create,
  get_read_only, write_back, modify, answer_of, inspect, contents_of, contents,
}

-- What a live entry says stays true of one with the same deadline.
live_deadline :
    (o : Option Entry) (e e' : Entry) (now : ℤ)
    → live o now ≡ some e
    → e'.expires_at ≡ e.expires_at
    → live (some e') now ≡ some e'
unfolding live is_expired
live_deadline none e e' now h d = cc
live_deadline (some x) e e' now h d = ground (arith, h, d)

live_fresh : (e : Entry) (now : ℤ) → e.expires_at ≡ pos 0 → live (some e) now ≡ some e
unfolding live is_expired
live_fresh e now h = rw h

module _ {A : Type 0} (k : Kind A) where
  contents_of-some :
      (e : Entry) (a : A)
      → contents_of k (some e) ≡ some a
      → (eqb e.typ k.typ ≡ true) × (k.project e.value ≡ some a)
  unfolding contents_of
  contents_of-some e a c = elim (Bool-cases (eqb e.typ k.typ)) [
    | inl t ↦ (t, rw t at c)
    | inr t ↦ absurd (let d = rw t at c in cc)
  ]

  contents_of-value :
      (e : Entry) (b : A)
      → eqb e.typ k.typ ≡ true
      → contents_of k (some (record e { value = k.inject b })) ≡ some b
  unfolding contents_of
  contents_of-value e b t = rw t (k.project-inject b)

  pub assert_kind-value :
      (e : Entry) (a : A)
      → eqb e.typ k.typ ≡ true
      → k.project e.value ≡ some a
      → assert_kind k e ≡ opened e a
  unfolding assert_kind
  assert_kind-value e a t p = rw t (rw (p, assert_kind))

module _ {A : Type 0} (k : Kind A) (kv : KvStore) (h : IsSharded kv) (key : Bytes) (now : ℤ) where
  created : Option Entry → KvStore → Opened A × KvStore
  created o kv' = create k kv' key o

  create-IsSharded :
      (kv' : KvStore) (o : Option Entry) → IsSharded kv' → IsSharded (create k kv' key o).1
  unfolding create
  create-IsSharded kv' none g = store-IsSharded kv' g key _
  create-IsSharded kv' (some e) g = g

  get_or_create-IsSharded : IsSharded (get_or_create k kv key now).1
  unfolding get_or_create
  get_or_create-IsSharded = create-IsSharded _ _ (get_for_write-IsSharded kv h key now)

  create-find :
      (kv' : KvStore) (o : Option Entry) (j : Bytes)
      → IsSharded kv'
      → eqb key j ≡ false
      → find (create k kv' key o).1 j ≡ find kv' j
  unfolding create
  create-find kv' none j g d = find-store kv' g key _ j ∙ rw d
  create-find kv' (some e) j g d = refl

  get_or_create-find :
      (j : Bytes) → eqb key j ≡ false → find (get_or_create k kv key now).1 j ≡ find kv j
  unfolding get_or_create
  get_or_create-find j d =
      create-find _ _ j (get_for_write-IsSharded kv h key now) d
      ∙ ((get_for_write-get kv h key now j).1 ∙ rw d)

  create-opened :
      (kv' : KvStore) (o : Option Entry) (a : A)
      → contents_of k o ≡ some a
      → ((e : Entry) → o ≡ some e → live (some e) now ≡ some e)
      → (e : Entry) × ((create k kv' key o).0 ≡ opened e a)
        × (eqb e.typ k.typ ≡ true)
        × ((b : A)
            → live (some (record e { value = k.inject b })) now
              ≡ some (record e { value = k.inject b }))
  unfolding create contents_of
  create-opened kv' none a c l = (
    fresh_entry (k.inject k.empty) k.typ,
    cc,
    eqb_refl k.typ,
    λ b. live_fresh (record (fresh_entry (k.inject k.empty) k.typ) { value = k.inject b }) now refl,
  )
  create-opened kv' (some e) a c l =
      let (t, p) = contents_of-some k e a c in
      (
        e,
        assert_kind-value k e a t p,
        t,
        λ b. live_deadline (some e) e (record e { value = k.inject b }) now (l e refl) refl,
      )

  live-get : (e : Entry) → get kv key now ≡ some e → live (some e) now ≡ some e
  unfolding get
  live-get e g = live_deadline (find kv key) e e now g refl

  get_or_create-opened :
      (a : A)
      → contents k kv key now ≡ some a
      → (e : Entry) × ((get_or_create k kv key now).0 ≡ opened e a)
        × (eqb e.typ k.typ ≡ true)
        × ((b : A)
            → live (some (record e { value = k.inject b })) now
              ≡ some (record e { value = k.inject b }))
  unfolding get_or_create contents
  get_or_create-opened a c =
      let same = (get_for_write-get kv h key now key).0 in
      create-opened (get_for_write kv key now).1 (get_for_write kv key now).0 a
        (ap (contents_of k) same ∙ c) (λ e p. live-get e (sym same ∙ p))

module _ {A B : Type 0} (k : Kind A) (kv : KvStore) (h : IsSharded kv) (key : Bytes) (now : ℤ)
    (f : A → Answer B × A) (a : A) where
  -- What a write answers and leaves, at its key and at the others.
  pub modify-contents :
      (j : Bytes)
      → contents k kv key now ≡ some a
      → ((modify k kv key now f).0 ≡ (f a).0)
        × (contents k (modify k kv key now f).1 j now
            ≡ (if eqb key j then some (f a).1 else contents k kv j now))
  unfolding modify contents get
  modify-contents j c =
      let (e, op, t, l) = get_or_create-opened k kv h key now a c in
      let e' : Entry = record e { value = k.inject (f a).1 } in
      let kv' = (get_or_create k kv key now).1 in
      let there = find-store kv' (get_or_create-IsSharded k kv h key now) key e' j in
      rw (op, write_back)
        (
          refl,
          rw there (elim (Bool-cases (eqb key j)) [
            | inl same ↦ rw same (rw (l (f a).1) (contents_of-value k e (f a).1 t))
            | inr other ↦ rw other (rw (get_or_create-find k kv h key now j other))
          ]),
        )

  pub modify-here :
      contents k kv key now ≡ some a
      → ((modify k kv key now f).0 ≡ (f a).0)
        × (contents k (modify k kv key now f).1 key now ≡ some (f a).1)
  modify-here c = let (answer, left) = modify-contents key c in (answer, left ∙ rw (eqb_refl key))

module _ {A B : Type 0} (k : Kind A) (kv : KvStore) (key : Bytes) (now : ℤ) (missing : Answer B)
    (f : A → Answer B) (a : A) where
  answer_of-contents :
      (o : Option Entry)
      → contents_of k o ≡ some a
      → missing ≡ f k.empty
      → answer_of k (elim o [ none ↦ none | some e ↦ some (assert_kind k e) ]) missing f ≡ f a
  unfolding contents_of answer_of
  answer_of-contents none c m = m ∙ ap f (let d : some k.empty ≡ some a = c in cc)
  answer_of-contents (some e) c m =
      let (t, p) = contents_of-some k e a c in rw (assert_kind-value k e a t p, answer_of)

  -- A read whose answer for an absent key is that for an empty value is a function on the contents.
  pub inspect-contents :
      contents k kv key now ≡ some a → missing ≡ f k.empty → inspect k kv key now missing f ≡ f a
  unfolding inspect contents get_read_only
  inspect-contents c m = answer_of-contents (get kv key now) c m

write_back-IsSharded :
    {A B : Type 0} (k : Kind A) (kv : KvStore) (key : Bytes) (o : Opened A) (f : A → Answer B × A)
    → IsSharded kv
    → IsSharded (write_back k kv key o f).1
unfolding write_back
write_back-IsSharded k kv key (opened e a) f g = store-IsSharded kv g key _
write_back-IsSharded k kv key refused f g = g
write_back-IsSharded k kv key not_asserted f g = g

-- The shards stay well formed.
pub modify-IsSharded :
    {A B : Type 0} (k : Kind A) (kv : KvStore) (h : IsSharded kv) (key : Bytes) (now : ℤ)
    (f : A → Answer B × A)
    → IsSharded (modify k kv key now f).1
unfolding modify
modify-IsSharded k kv h key now f =
    write_back-IsSharded k _ key _ f (get_or_create-IsSharded k kv h key now)

write_back-find :
    {A B : Type 0} (k : Kind A) (kv : KvStore) (key : Bytes) (o : Opened A) (f : A → Answer B × A)
    (j : Bytes)
    → IsSharded kv
    → eqb key j ≡ false
    → find (write_back k kv key o f).1 j ≡ find kv j
unfolding write_back
write_back-find k kv key (opened e a) f j g d = find-store kv g key _ j ∙ rw d
write_back-find k kv key refused f j g d = refl
write_back-find k kv key not_asserted f j g d = refl

-- A write leaves the other keys alone, whatever its own key holds.
pub modify-find :
    {A B : Type 0} (k : Kind A) (kv : KvStore) (h : IsSharded kv) (key : Bytes) (now : ℤ)
    (f : A → Answer B × A) (j : Bytes)
    → eqb key j ≡ false
    → find (modify k kv key now f).1 j ≡ find kv j
unfolding modify
modify-find k kv h key now f j d =
    write_back-find k _ key _ f j (get_or_create-IsSharded k kv h key now) d
    ∙ get_or_create-find k kv h key now j d
