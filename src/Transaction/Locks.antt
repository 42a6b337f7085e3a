-- ===== src/Transaction/Locks.antt =====
-- internal/transaction/lock_manager.go: the order in which `LockMulti` takes the locks of its keys, and the
-- order in which the function that it returns gives them back.
pub mod Ordered
pub mod Sound
use dbx_database_extreme.Base.{
  ℕ, zero, suc, Bool, true, false, Bytes, List, [], ◌∷◌, ◌++◌, length, eqb, before, if◌then◌else◌,
}

unfoldable pub is_among : Bytes → List Bytes → Bool
is_among k [] = false
is_among k (j ∷ ks) = let rest = is_among k ks in if eqb j k then true else rest

-- The first loop of `sortedUnique`.
unfoldable pub unique : List Bytes → List Bytes → List Bytes
unfolding is_among
unique seen [] = []
unique seen (k ∷ ks) =
    let known = unique seen ks in
    let fresh = unique (k ∷ seen) ks in if is_among k seen then known else k ∷ fresh

-- The loop on j: what stands at i when it ends, and the elements behind it.
unfoldable pub swap_down : Bytes → List Bytes → Bytes × List Bytes
swap_down x [] = (x, [])
swap_down x (y ∷ ys) =
    let swapped = swap_down y ys in
    let kept = swap_down x ys in
    if before y x then (swapped.0, x ∷ swapped.1) else (kept.0, y ∷ kept.1)

-- The loop on i, of which n rounds are left.
unfoldable pub sort_from : ℕ → List Bytes → List Bytes
unfolding swap_down
sort_from zero xs = xs
sort_from (suc n) [] = []
sort_from (suc n) (x ∷ xs) = let least = swap_down x xs in least.0 ∷ sort_from n least.1

unfoldable pub sort : List Bytes → List Bytes
unfolding sort_from
sort xs = sort_from (length xs) xs

unfoldable pub sorted_unique : List Bytes → List Bytes
unfolding unique sort
sorted_unique keys = sort (unique [] keys)

pub data LockOp : Type 0 where
  lock : Bytes → LockOp
  unlock : Bytes → LockOp

unfoldable pub lock_all : List Bytes → List LockOp
lock_all [] = []
lock_all (k ∷ ks) = lock k ∷ lock_all ks

unfoldable pub unlock_all : List Bytes → List LockOp
unlock_all [] = []
unlock_all (k ∷ ks) = unlock_all ks ++ unlock k ∷ []

-- What `LockMulti` does, and the function that it returns.
unfoldable pub lock_multi : List Bytes → List LockOp × List LockOp
unfolding lock_all unlock_all sorted_unique
lock_multi keys = let sorted = sorted_unique keys in (lock_all sorted, unlock_all sorted)
