-- ===== src/Transaction/Watch.antt =====
-- internal/transaction/watch.go: the keys that each client watches, with the version at that time.
pub mod Sound
use dbx_database_extreme.Base.{
  ℕ, zero, suc, ◌+◌, ◌^◌, ◌<◌, ◌≤◌, ◌≡◌, refl, sym, ◌∙◌, ap, Bool, true, false, ◌||◌, Bytes, Option,
  none, some, List, [], ◌∷◌, arith, Dict, lookup, insert, lookup-insert, eqb, eqb_iff, eqb_refl,
  ltb, leb, ◌==◌, id_lookup, id_insert, id_erase, id_lookup-id_insert, ℤ, if◌then◌else◌, Bool-cases,
  inl, inr, All,
}
use dbx_database_extreme.Transaction.Mvcc.{
  VersionedValue, MvccStore, write, following, read_latest, read_at, latest_at, history_of,
}
use dbx_database_extreme.Transaction.Mvcc.Sound.{IsVersioned, read_latest-write}

abbrev pub WatchSet : Type 0
WatchSet = List (ℕ × Dict ℕ)

abbrev watched_or_empty : Option (Dict ℕ) → Dict ℕ
watched_or_empty none = []
watched_or_empty (some keys) = keys

-- w.watches[clientID], which is nil for a client that watches nothing.
unfoldable pub watches_of : WatchSet → ℕ → Dict ℕ
watches_of w client = watched_or_empty (id_lookup client w)

unfoldable pub watch_keys : List Bytes → ℕ → Dict ℕ → Dict ℕ
watch_keys [] version m = m
watch_keys (k ∷ keys) version m = watch_keys keys version (insert k version m)

unfoldable pub watch : WatchSet → ℕ → List Bytes → ℕ → WatchSet
unfolding watch_keys watches_of
watch w client keys version = id_insert client (watch_keys keys version (watches_of w client)) w

unfoldable pub unwatch : WatchSet → ℕ → WatchSet
unwatch w client = id_erase client w

module _ {A : Type 0} where
  unfoldable pub is_newer : Option (VersionedValue A) → ℕ → Bool
  is_newer none watched_at = false
  is_newer (some latest) watched_at = ltb watched_at latest.version

  -- The loop ends at the first key that was written.
  unfoldable pub any_newer : MvccStore A → Dict ℕ → Bool
  unfolding is_newer
  any_newer mvcc [] = false
  any_newer mvcc ((key, watched_at) ∷ watches) =
      is_newer (read_latest mvcc key) watched_at || any_newer mvcc watches

  unfoldable pub is_dirty : WatchSet → ℕ → MvccStore A → Bool
  unfolding any_newer watches_of
  is_dirty w client mvcc = any_newer mvcc (watches_of w client)

unfoldable pub notified : Option ℕ → ℕ → Bool
notified none current_version = false
notified (some watched_at) current_version = ltb watched_at current_version

unfoldable pub notify_write : WatchSet → Bytes → ℕ → List ℕ
unfolding notified
notify_write [] key current_version = []
notify_write ((client, keys) ∷ w) key current_version =
    let rest = notify_write w key current_version in
    if notified (lookup key keys) current_version then client ∷ rest else rest
