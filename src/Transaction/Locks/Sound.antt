-- ===== src/Transaction/Locks/Sound.antt =====
-- Transactions that each take their locks by `LockMulti`.
use dbx_database_extreme.Base.{
  ◌≡◌, subst, true, Bytes, List, [], ◌∷◌, ◌++◌, All, eqb, eqb_sound, before, before_irrefl,
  before_trans, Bool-cases, inl, inr,
}
use dbx_database_extreme.Transaction.Locks.{is_among, sorted_unique, lock_multi, lock, lock_all}
use dbx_database_extreme.Transaction.Locks.Ordered.{
  count, one_if, IsAscending, sorted_unique-count, sorted_unique-IsAscending,
}

-- A call of `LockMulti` in the middle: the locks that it holds and the one that it wants next.
pub record Locking : Type 0 where
  pub keys : List Bytes
  pub held : List Bytes
  pub wanted : Bytes
  pub rest : List Bytes
  pub in_order : (lock_multi keys).0 ≡ lock_all (held ++ wanted ∷ rest)

-- The first call waits for the second, maybe through others.
pub data IsBlocked : Locking → Locking → Type 0 where
  waits : (a b : Locking) → is_among a.wanted b.held ≡ true → IsBlocked a b
  waits_through :
      (a b c : Locking) → is_among a.wanted b.held ≡ true → IsBlocked b c → IsBlocked a c

lock_all_inj : (xs ys : List Bytes) → lock_all xs ≡ lock_all ys → xs ≡ ys
unfolding lock_all
lock_all_inj [] [] h = cc
lock_all_inj [] (y ∷ ys) h = absurd (cc)
lock_all_inj (x ∷ xs) [] h = absurd (cc)
lock_all_inj (x ∷ xs) (y ∷ ys) h =
    let first : lock x ≡ lock y = cc in
    let one : x ≡ y = cc in
    let more : lock_all xs ≡ lock_all ys = cc in let rest = lock_all_inj xs ys more in cc

All-middle :
    (P : Bytes → Type 0) (xs : List Bytes) (y : Bytes) (ys : List Bytes)
    → All P (xs ++ y ∷ ys)
    → P y
All-middle P [] y ys a = a.0
All-middle P (x ∷ xs) y ys a = All-middle P xs y ys a.1

held-before :
    (held : List Bytes) (wanted : Bytes) (rest : List Bytes) (k : Bytes)
    → IsAscending (held ++ wanted ∷ rest)
    → is_among k held ≡ true
    → before k wanted ≡ true
unfolding is_among
held-before [] wanted rest k a h = absurd (cc)
held-before (j ∷ held) wanted rest k a h = elim (Bool-cases (eqb j k)) [
  | inl e ↦
      subst (λ x. before x wanted ≡ true) (eqb_sound j k e)
        (All-middle (λ y. before j y ≡ true) held wanted rest a.0)
  | inr e ↦ held-before held wanted rest k a.1 (rw e at h)
]

wanted-before : (a b : Locking) → is_among a.wanted b.held ≡ true → before a.wanted b.wanted ≡ true
unfolding lock_multi
wanted-before a b h =
    held-before b.held b.wanted b.rest a.wanted
      (subst IsAscending
        (lock_all_inj (sorted_unique b.keys) (b.held ++ b.wanted ∷ b.rest) b.in_order)
        (sorted_unique-IsAscending b.keys))
      h

blocked-before : (a b : Locking) → IsBlocked a b → before a.wanted b.wanted ≡ true
blocked-before a b (waits _ _ h) = wanted-before a b h
blocked-before a c (waits_through _ b _ h more) =
    before_trans a.wanted b.wanted c.wanted (wanted-before a b h) (blocked-before b c more)

-- No call of LockMulti waits for itself, directly or through other calls: each holds keys that its order puts
-- before the key that it wants, so that a chain of waiting calls wants ever later keys.
pub lock_multi-IsAcyclic : (a : Locking) → ¬ IsBlocked a a
lock_multi-IsAcyclic a h =
    let e = blocked-before a a h in let f = before_irrefl a.wanted in absurd (cc)

-- sortedUnique gives every key that it is given once and no other, in strictly ascending order.
sorted_unique_sound :
    (keys : List Bytes) (k : Bytes)
    → (count k (sorted_unique keys) ≡ one_if (is_among k keys)) × IsAscending (sorted_unique keys)
sorted_unique_sound keys k = (sorted_unique-count k keys, sorted_unique-IsAscending keys)
