-- ===== src/Transaction/Mvcc/Sound.antt =====
-- A write is what the latest reading shows, and no reading at an older version sees it.
use dbx_database_extreme.Base.{
  ℕ, zero, suc, ◌+◌, ◌-◌, ◌^◌, ◌<◌, ◌≤◌, ◌≡◌, ◌∙◌, ap, Bool, false, Bytes, some, List, [], ◌∷◌,
  ◌++◌, arith, length, length-append, drop, All, lookup-insert, eqb, eqb_sound, eqb_refl, ltb, leb,
  ℤ, if◌then◌else◌, Bool-cases, inl, inr,
}
use dbx_database_extreme.Transaction.Mvcc.{
  VersionedValue, MvccStore, history_of, following, trim, write, latest_at, read_at, read_latest,
}

module _ {A : Type 0} where
  -- No version is newer than the counter.
  abbrev pub IsVersioned : MvccStore A → Type 0
  IsVersioned m =
      (key : Bytes) → All (λ (vv : VersionedValue A). vv.version ≤ m.current) (history_of m key)

  latest_at-append :
      (hist : List (VersionedValue A)) (vv : VersionedValue A) (s : ℕ)
      → latest_at (hist ++ vv ∷ []) s ≡ (if leb vv.version s then some vv else latest_at hist s)
  unfolding latest_at
  latest_at-append [] vv s = ground arith
  latest_at-append (x ∷ hist) vv s =
      rw (latest_at-append hist vv s, latest_at)
        (elim (Bool-cases (leb vv.version s)) [ inl e ↦ rw e | inr e ↦ rw e ])

  All-drop :
      (P : VersionedValue A → Type 0) (n : ℕ) (xs : List (VersionedValue A))
      → All P xs
      → All P (drop n xs)
  All-drop P zero xs h = h
  All-drop P (suc n) [] h = h
  All-drop P (suc n) (x ∷ xs) h = All-drop P n xs h.1

  latest_at-drop_last :
      (n : ℕ) (hist : List (VersionedValue A)) (vv : VersionedValue A) (s : ℕ)
      → n ≤ length hist
      → vv.version ≤ s
      → latest_at (drop n (hist ++ vv ∷ [])) s ≡ some vv
  latest_at-drop_last zero hist vv s h le = latest_at-append hist vv s ∙ ground arith
  latest_at-drop_last (suc n) [] vv s h le = absurd (omega arith)
  latest_at-drop_last (suc n) (x ∷ hist) vv s h le =
      latest_at-drop_last n hist vv s (omega arith) le

  length-snoc :
      (hist : List (VersionedValue A)) (vv : VersionedValue A)
      → length (hist ++ vv ∷ []) ≡ length hist + 1
  length-snoc hist vv = length-append hist (vv ∷ [])

  latest_at-trim :
      (limit : ℕ) (hist : List (VersionedValue A)) (vv : VersionedValue A) (s : ℕ)
      → 0 < limit
      → vv.version ≤ s
      → latest_at (trim limit (hist ++ vv ∷ [])) s ≡ some vv
  unfolding trim
  latest_at-trim limit hist vv s p le =
      let len = length-snoc hist vv in
      elim (Bool-cases (ltb limit (length (hist ++ vv ∷ [])))) [
        | inl e ↦ rw e (
            latest_at-drop_last (length (hist ++ vv ∷ []) - limit) hist vv s (omega (arith, len))
              le)
        | inr e ↦ rw e (latest_at-drop_last 0 hist vv s (omega arith) le)
      ]

  trim-short :
      (limit : ℕ) (hist : List (VersionedValue A)) (vv : VersionedValue A)
      → length hist < limit
      → trim limit (hist ++ vv ∷ []) ≡ hist ++ vv ∷ []
  unfolding trim
  trim-short limit hist vv h = ground (arith, length-snoc hist vv)

module _ {A : Type 0} (m : MvccStore A) (key : Bytes) (value : A) (deleted : Bool) (now : ℤ) where
  abbrev written : VersionedValue A
  written = record { value = value; version = following m; timestamp = now; deleted = deleted }

  history_of-write :
      (j : Bytes)
      → history_of (write m key value deleted now).1 j ≡ (
          if eqb key j
          then trim m.max_versions_per_key (history_of m key ++ written ∷ [])
          else history_of m j)
  unfolding history_of write
  history_of-write j =
      rw
        (
          lookup-insert key j (trim m.max_versions_per_key (history_of m key ++ written ∷ []))
              m.history,
          history_of,
        )
        (elim (Bool-cases (eqb key j)) [ inl e ↦ rw e | inr e ↦ rw e ])

  -- If a key may keep one version at least, its latest reading behind a write is what was
  -- written.
  pub read_latest-write :
      0 < m.max_versions_per_key
      → read_latest (write m key value deleted now).1 key
        ≡ some (record {
          value = value;
          version = (write m key value deleted now).0;
          timestamp = now;
          deleted = deleted;
        })
  unfolding read_latest read_at write following
  read_latest-write p = rw (history_of-write key) (
      rw (eqb_refl key)
        (latest_at-trim m.max_versions_per_key (history_of m key) written _ p current))
    where
      current : following m ≤ (write m key value deleted now).1.current
      current = unfold write in omega arith

  -- A reading at a version that was there before the write does not see it, as long as the
  -- history of the written key has room and the counter is below its limit.
  pub read_at-write :
      (j : Bytes) (snapshot : ℕ)
      → snapshot ≤ m.current
      → m.current + 1 < 2 ^ 64
      → length (history_of m key) < m.max_versions_per_key
      → read_at (write m key value deleted now).1 j snapshot ≡ read_at m j snapshot
  unfolding read_at
  read_at-write j snapshot old range room = rw (history_of-write j) (elim (Bool-cases (eqb key j)) [
    | inl e ↦ rw e (
        rw (trim-short m.max_versions_per_key (history_of m key) written room) (
          rw (latest_at-append (history_of m key) written snapshot)
            (rw newer (ap (λ k. latest_at (history_of m k) snapshot) (eqb_sound key j e)))))
    | inr e ↦ rw e
  ])
    where
      newer : leb (following m) snapshot ≡ false
      newer = unfold following in ground arith
