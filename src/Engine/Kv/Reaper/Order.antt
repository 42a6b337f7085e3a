-- ===== src/Engine/Kv/Reaper/Order.antt =====
-- The heap stays in the order in which its items are taken.
use dbx_database_extreme.Base.{List, [], ◌∷◌, arith, ltb_ℤ, ◌≤ℤ◌, Bool-cases, inl, inr, All}
use dbx_database_extreme.Engine.Kv.{ExpiryItem, heap_push}
use dbx_database_extreme.Engine.Kv.Reaper.Drain.{IsOrdered}

All-le :
    (item x : ExpiryItem) (xs : List ExpiryItem)
    → item.deadline ≤ℤ x.deadline
    → All (λ (y : ExpiryItem). x.deadline ≤ℤ y.deadline) xs
    → All (λ (y : ExpiryItem). item.deadline ≤ℤ y.deadline) xs
All-le item x [] l h = tt
All-le item x (y ∷ xs) l h = (omega (arith, h.0), All-le item x xs l h.1)

All-heap_push :
    (item x : ExpiryItem) (xs : List ExpiryItem)
    → x.deadline ≤ℤ item.deadline
    → All (λ (y : ExpiryItem). x.deadline ≤ℤ y.deadline) xs
    → All (λ (y : ExpiryItem). x.deadline ≤ℤ y.deadline) (heap_push item xs)
unfolding heap_push
All-heap_push item x [] l h = (l, tt)
All-heap_push item x (y ∷ xs) l h = elim (Bool-cases (ltb_ℤ item.deadline y.deadline)) [
  | inl e ↦ rw e (l, h)
  | inr e ↦ rw e (h.0, All-heap_push item x xs l h.1)
]

-- `heap.Push` keeps the order of the heap.
pub heap_push-IsOrdered :
    (item : ExpiryItem) (xs : List ExpiryItem) → IsOrdered xs → IsOrdered (heap_push item xs)
unfolding heap_push
heap_push-IsOrdered item [] h = (tt, tt)
heap_push-IsOrdered item (x ∷ xs) h = elim (Bool-cases (ltb_ℤ item.deadline x.deadline)) [
  | inl e ↦ rw e ((ground arith, All-le item x xs (ground arith) h.0), h)
  | inr e ↦ rw e (All-heap_push item x xs (ground arith) h.0, heap_push-IsOrdered item xs h.1)
]
