-- ===== src/Transaction/Watch/Sound.antt =====
-- What a client that watches keys is told about writes to them.
use dbx_database_extreme.Base.{
  ℕ, ◌+◌, ◌^◌, ◌<◌, ◌≡◌, ◌∙◌, Bool, true, Bytes, some, List, [], ◌∷◌, arith, Dict, lookup, insert,
  lookup-insert, eqb, eqb_iff, ltb, id_lookup-id_insert, ℤ, Bool-cases, inl, inr,
}
use dbx_database_extreme.Transaction.Mvcc.{MvccStore, write, following, read_latest}
use dbx_database_extreme.Transaction.Mvcc.Sound.{read_latest-write}
use dbx_database_extreme.Transaction.Watch.{
  WatchSet, watches_of, watch_keys, watch, is_newer, any_newer, is_dirty,
}
use dbx_database_extreme.Engine.Kv.Expiry.{contains}

some_inj : {x y : ℕ} → some x ≡ some y → x ≡ y
some_inj h = cc

module _ {A : Type 0} (m : MvccStore A) where
  any_newer-lookup :
      (watches : Dict ℕ) (key : Bytes) (at : ℕ)
      → lookup key watches ≡ some at
      → is_newer (read_latest m key) at ≡ true
      → any_newer m watches ≡ true
  unfolding any_newer lookup
  any_newer-lookup [] key at h n = ground arith
  any_newer-lookup ((k, v) ∷ watches) key at h n = elim (Bool-cases (eqb k key)) [
    | inl same ↦ let e = (eqb_iff k key).0 same in rw e (rw (some_inj (rw same at h)) (rw n))
    | inr other ↦ rw (any_newer-lookup watches key at (rw other at h) n) (ground arith)
  ]

lookup-watch_keys :
    (keys : List Bytes) (version : ℕ) (m : Dict ℕ) (key : Bytes)
    → lookup key m ≡ some version
    → lookup key (watch_keys keys version m) ≡ some version
unfolding watch_keys
lookup-watch_keys [] version m key h = h
lookup-watch_keys (k ∷ keys) version m key h =
    lookup-watch_keys keys version (insert k version m) key
      (lookup-insert k key version m ∙ ground (arith, h))

lookup-watch_keys_member :
    (keys : List Bytes) (version : ℕ) (m : Dict ℕ) (key : Bytes)
    → contains keys key ≡ true
    → lookup key (watch_keys keys version m) ≡ some version
unfolding watch_keys
lookup-watch_keys_member [] version m key h = ground arith
lookup-watch_keys_member (k ∷ keys) version m key h = elim (Bool-cases (eqb k key)) [
  | inl e ↦
      lookup-watch_keys keys version (insert k version m) key (lookup-insert k key version m ∙ rw e)
  | inr e ↦ lookup-watch_keys_member keys version (insert k version m) key (rw e at h)
]

watches_of-watch :
    (w : WatchSet) (client : ℕ) (keys : List Bytes) (version : ℕ)
    → watches_of (watch w client keys version) client
      ≡ watch_keys keys version (watches_of w client)
unfolding watches_of watch
watches_of-watch w client keys version =
    rw (id_lookup-id_insert client client (watch_keys keys version (watches_of w client)) w)
      (ground arith)

module _ {A : Type 0} (m : MvccStore A) where
  -- A client that watches keys at the current version is dirty when one of them has been
  -- written since, if the counter is below its limit and a key may keep one version at least.
  pub is_dirty-write :
      (w : WatchSet) (client : ℕ) (keys : List Bytes) (key : Bytes) (value : A) (deleted : Bool)
      (now : ℤ)
      → contains keys key ≡ true
      → m.current + 1 < 2 ^ 64
      → 0 < m.max_versions_per_key
      → is_dirty (watch w client keys m.current) client (write m key value deleted now).1 ≡ true
  unfolding is_dirty
  is_dirty-write w client keys key value deleted now member range room =
      rw (watches_of-watch w client keys m.current) (
        any_newer-lookup (write m key value deleted now).1
          (watch_keys keys m.current (watches_of w client)) key m.current
          (lookup-watch_keys_member keys m.current (watches_of w client) key member)
          (rw (read_latest-write m key value deleted now room) newer))
    where
      newer : ltb m.current (write m key value deleted now).0 ≡ true
      newer = unfold write following in ground arith
