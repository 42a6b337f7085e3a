-- ===== src/Base/IdMaps.antt =====
-- Go's maps with numbers as keys, as association lists.
use Prim.Native.Nat.{ℕ}
use mathlib.Core.Path.{◌≡◌, refl}
use mathlib.Core.Option.{Option, none, some}
use mathlib.Core.List.{List, [], ◌∷◌}
use native.Mathlib.Omega.{arith}
use dbx_database_extreme.Base.Tests.{if◌then◌else◌, ◌==◌}

module _ {ℓ} {V : Type ℓ} where
  unfoldable pub id_lookup : ℕ → List (ℕ × V) → Option V
  id_lookup k [] = none
  id_lookup k ((j, v) ∷ m) = if j == k then some v else id_lookup k m

  unfoldable pub id_insert : ℕ → V → List (ℕ × V) → List (ℕ × V)
  id_insert k v [] = (k, v) ∷ []
  id_insert k v ((j, w) ∷ m) = if j == k then (k, v) ∷ m else (j, w) ∷ id_insert k v m

  unfoldable pub id_erase : ℕ → List (ℕ × V) → List (ℕ × V)
  id_erase k [] = []
  id_erase k ((j, w) ∷ m) = let rest = id_erase k m in if j == k then rest else (j, w) ∷ rest

  pub id_lookup-id_insert :
      (k j : ℕ) (v : V) (m : List (ℕ × V))
      → id_lookup j (id_insert k v m) ≡ (if k == j then some v else id_lookup j m)
  unfolding id_lookup id_insert
  id_lookup-id_insert k j v [] = refl
  id_lookup-id_insert k j v ((i, w) ∷ m) = ground (arith, id_lookup-id_insert k j v m)

  pub id_lookup-id_erase :
      (k j : ℕ) (m : List (ℕ × V))
      → id_lookup j (id_erase k m) ≡ (if k == j then none else id_lookup j m)
  unfolding id_lookup id_erase
  id_lookup-id_erase k j [] = ground arith
  id_lookup-id_erase k j ((i, w) ∷ m) = ground (arith, id_lookup-id_erase k j m)
