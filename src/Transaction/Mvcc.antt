-- ===== src/Transaction/Mvcc.antt =====
-- internal/transaction/mvcc.go: a history of versions for each key.
pub mod Sound
use dbx_database_extreme.Base.{
  ℕ, ◌+◌, ◌-◌, ◌%◌, ◌^◌, Bool, Bytes, Option, none, some, List, [], ◌∷◌, ◌++◌, length, drop, Dict,
  lookup, insert, ltb, leb, ℤ, pos, leb_ℤ, pos_part, if◌then◌else◌,
}

-- `A` is what stands behind `interface{}`.
pub record VersionedValue (A : Type 0) : Type 0 where
  pub value : A
  pub version : ℕ
  pub timestamp : ℤ
  pub deleted : Bool

pub record MvccStore (A : Type 0) : Type 0 where
  pub history : Dict (List (VersionedValue A))
  pub current : ℕ
  pub max_versions_per_key : ℕ

module _ {A : Type 0} where
  unfoldable pub new_mvcc_store : ℤ → MvccStore A
  new_mvcc_store max_versions = record {
    history = [];
    current = 0;
    max_versions_per_key = if leb_ℤ max_versions (pos 0) then 64 else pos_part max_versions;
  }

  unfoldable pub or_empty : Option (List (VersionedValue A)) → List (VersionedValue A)
  or_empty none = []
  or_empty (some hist) = hist

  -- m.history[key], which is nil for a key that is absent.
  unfoldable pub history_of : MvccStore A → Bytes → List (VersionedValue A)
  unfolding or_empty
  history_of m key = or_empty (lookup key m.history)

  -- The counter is a `uint64`.
  unfoldable pub following : MvccStore A → ℕ
  following m = (m.current + 1) % 2 ^ 64

  -- The last `limit` versions.
  unfoldable pub trim : ℕ → List (VersionedValue A) → List (VersionedValue A)
  trim limit hist = if ltb limit (length hist) then drop (length hist - limit) hist else hist

  unfoldable pub write : MvccStore A → Bytes → A → Bool → ℤ → ℕ × MvccStore A
  unfolding history_of following trim
  write m key value deleted now =
      let v = following m in
      let vv : VersionedValue A = record {
        value = value;
        version = v;
        timestamp = now;
        deleted = deleted;
      } in
      let hist = trim m.max_versions_per_key (history_of m key ++ vv ∷ []) in
      (v, record m { history = insert key hist m.history; current = v })

  -- The walk from the end of the history.
  unfoldable pub latest_at : List (VersionedValue A) → ℕ → Option (VersionedValue A)
  latest_at [] snapshot = none
  latest_at (vv ∷ hist) snapshot =
      let later = latest_at hist snapshot in
      elim later [
        | some found ↦ some found
        | none ↦ if leb vv.version snapshot then some vv else none
      ]

  unfoldable pub read_at : MvccStore A → Bytes → ℕ → Option (VersionedValue A)
  unfolding latest_at history_of
  read_at m key snapshot = latest_at (history_of m key) snapshot

  unfoldable pub read_latest : MvccStore A → Bytes → Option (VersionedValue A)
  unfolding read_at
  read_latest m key = read_at m key m.current

  unfoldable pub up_to : List (VersionedValue A) → ℕ → List (VersionedValue A)
  up_to [] snapshot = []
  up_to (vv ∷ hist) snapshot =
      let rest = up_to hist snapshot in if leb vv.version snapshot then vv ∷ rest else rest

  unfoldable pub history_at : MvccStore A → Bytes → ℕ → List (VersionedValue A)
  unfolding up_to history_of
  history_at m key snapshot = up_to (history_of m key) snapshot

  unfoldable pub since : ℕ → List (VersionedValue A) → List (VersionedValue A)
  since least [] = []
  since least (vv ∷ hist) =
      let rest = since least hist in if leb least vv.version then vv ∷ rest else rest

  -- A key whose history is emptied is deleted.
  unfoldable pub collect_garbage :
      ℕ → Dict (List (VersionedValue A)) → Dict (List (VersionedValue A))
  unfolding since
  collect_garbage least [] = []
  collect_garbage least ((key, hist) ∷ history) =
      let rest = collect_garbage least history in
      elim (since least hist) [ [] ↦ rest | vv ∷ keep ↦ (key, vv ∷ keep) ∷ rest ]

  unfoldable pub gc : MvccStore A → ℕ → MvccStore A
  unfolding collect_garbage
  gc m least = record m { history = collect_garbage least m.history }
