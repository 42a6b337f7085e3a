-- ===== src/Engine/Lists/Sound.antt =====
-- What the list operations do to the list that a key shows.
use dbx_database_extreme.Base.{
  ℕ, zero, suc, ◌+◌, ◌-◌, ◌≤◌, ◌≡◌, refl, ◌∙◌, sym, ap, Bytes, Option, some, none, List, [], ◌∷◌,
  ◌++◌, arith, length, length-append, take, drop, take-append_exact, drop-append_exact, ℤ, pos,
  negsuc, ◌-ℤ◌, ◌+ℤ◌,
}
use mathlib.Core.List.{reverse, reverse_aux, reverse_aux-eq}
use dbx_database_extreme.Engine.Kv.{KvStore}
use dbx_database_extreme.Engine.Kv.Shards.{IsSharded}
use dbx_database_extreme.Engine.Typed.{done, contents}
use dbx_database_extreme.Engine.Typed.Sound.{modify-here, modify-IsSharded, inspect-contents}
use dbx_database_extreme.Engine.Lists.{
  list_kind, from_end, clamp, range_of, slice, push_front, pop_front, pop_back, lpush, rpush, lpop,
  rpop, lrange, ltrim,
}

take_all : {A : Type 0} (n : ℕ) (xs : List A) → length xs ≤ n → take n xs ≡ xs
take_all zero [] h = refl
take_all zero (x ∷ xs) h = absurd (omega arith)
take_all (suc n) [] h = refl
take_all (suc n) (x ∷ xs) h = ap (λ t. x ∷ t) (take_all n xs (omega arith))

range_of-whole : (m : ℕ) → range_of (suc m) (pos 0) (negsuc 0) ≡ some (0, m)
unfolding range_of clamp from_end ◌-ℤ◌ ◌+ℤ◌
range_of-whole m = ground arith

-- From 0 to -1 is the whole list.
slice-whole :
    {A : Type 0} (items : List A) → slice (range_of (length items) (pos 0) (negsuc 0)) items ≡ items
unfolding slice
slice-whole [] = unfold range_of clamp from_end ◌-ℤ◌ ◌+ℤ◌ in refl
slice-whole (x ∷ xs) =
    rw (range_of-whole (length xs), slice) (take_all (length xs - 0 + 1) (x ∷ xs) (omega arith))

drop-nil : {A : Type 0} (n : ℕ) → drop {A = A} n [] ≡ []
drop-nil zero = refl
drop-nil (suc n) = refl

take-nil : {A : Type 0} (n : ℕ) → take {A = A} n [] ≡ []
take-nil zero = refl
take-nil (suc n) = refl

slice-nil : {A : Type 0} (r : Option (ℕ × ℕ)) → slice {A = A} r [] ≡ []
unfolding slice
slice-nil none = refl
slice-nil (some (first, last)) = rw (drop-nil first) (take-nil (last - first + 1))

-- LRANGE is the slice of the list that the key shows.
pub lrange-contents :
    (kv : KvStore) (key : Bytes) (start stop now : ℤ) (items : List Bytes)
    → contents list_kind kv key now ≡ some items
    → lrange kv key start stop now ≡ done (slice (range_of (length items) start stop) items)
unfolding lrange list_kind
lrange-contents kv key start stop now items there =
    inspect-contents list_kind kv key now (done [])
      (λ (items : List Bytes). done (slice (range_of (length items) start stop) items)) items there
      (ap done (sym (slice-nil (range_of 0 start stop))))

push_front-reverse_aux :
    (values items : List Bytes) → push_front values items ≡ reverse_aux values items
unfolding push_front
push_front-reverse_aux [] items = refl
push_front-reverse_aux (v ∷ values) items = push_front-reverse_aux values (v ∷ items)

length-reverse_aux : {A : Type 0} (xs r : List A) → length (reverse_aux xs r) ≡ length xs + length r
length-reverse_aux [] r = omega arith
length-reverse_aux (x ∷ xs) r = omega (arith, length-reverse_aux xs (x ∷ r))

length-reverse : {A : Type 0} (xs : List A) → length xs ≡ length (reverse xs)
length-reverse xs = omega (arith, length-reverse_aux xs [])

pop_front-pos : (n : ℕ) (xs : List Bytes) → pop_front (pos n) xs ≡ (done (take n xs), drop n xs)
unfolding pop_front
pop_front-pos zero [] = refl
pop_front-pos (suc n) [] = refl
pop_front-pos n (x ∷ xs) = refl

pop_back-pos :
    (n : ℕ) (xs : List Bytes)
    → pop_back (pos n) xs ≡ (done (drop (length xs - n) xs), take (length xs - n) xs)
unfolding pop_back
pop_back-pos n [] = rw zero-sub
  where
    zero-sub : 0 - n ≡ 0
    zero-sub = omega arith
pop_back-pos n (x ∷ xs) = refl

pop_front-push_front :
    (values items : List Bytes)
    → pop_front (pos (length values)) (push_front values items) ≡ (done (reverse values), items)
pop_front-push_front values items =
    let n = length-reverse values in
    rw (push_front-reverse_aux values items ∙ reverse_aux-eq values items) (
      rw (pop_front-pos (length values) (reverse values ++ items)) (
        rw (take-append_exact (reverse values) items (length values) n)
          (rw (drop-append_exact (reverse values) items (length values) n))))

pop_back-append :
    (values items : List Bytes)
    → pop_back (pos (length values)) (items ++ values) ≡ (done values, items)
pop_back-append values items =
    let n : length (items ++ values) - length values ≡ length items =
      omega (arith, length-append items values) in
    rw (pop_back-pos (length values) (items ++ values))
      (rw (take-append_exact items values _ n) (rw (drop-append_exact items values _ n)))

module _ (kv : KvStore) (h : IsSharded kv) (key : Bytes) (now : ℤ) (items : List Bytes)
    (there : contents list_kind kv key now ≡ some items) where
  -- On a list or an absent key, LPOP of as many values as LPUSH put in front gives them back,
  -- the last first, and leaves the list as it was.
  pub lpop-lpush :
      (values : List Bytes)
      → ((lpop (lpush kv key values now).1 key (pos (length values)) now).0 ≡ done (reverse values))
        × (contents list_kind
              (lpop (lpush kv key values now).1 key (pos (length values)) now).1
              key
              now
            ≡ some items)
  unfolding lpush lpop
  lpop-lpush values =
      let pushed =
        modify-here list_kind kv h key now
          (λ (items : List Bytes).
            (done (length (push_front values items)), push_front values items))
          items there in
      let g = modify-IsSharded list_kind kv h key now (λ (items : List Bytes).
        (done (length (push_front values items)), push_front values items)) in
      let popped =
        modify-here list_kind _ g key now (pop_front (pos (length values)))
          (push_front values items) (pushed.1) in
      rw (pop_front-push_front values items) at popped

  -- On a list or an absent key, RPOP of as many values as RPUSH put behind gives them back in
  -- order, and leaves the list as it was.
  rpop-rpush :
      (values : List Bytes)
      → ((rpop (rpush kv key values now).1 key (pos (length values)) now).0 ≡ done values)
        × (contents list_kind
              (rpop (rpush kv key values now).1 key (pos (length values)) now).1
              key
              now
            ≡ some items)
  unfolding rpush rpop
  rpop-rpush values =
      let pushed =
        modify-here list_kind kv h key now
          (λ (items : List Bytes). (done (length (items ++ values)), items ++ values)) items
          there in
      let g =
        modify-IsSharded list_kind kv h key now
          (λ (items : List Bytes). (done (length (items ++ values)), items ++ values)) in
      let popped =
        modify-here list_kind _ g key now (pop_back (pos (length values))) (items ++ values)
          (pushed.1) in
      rw (pop_back-append values items) at popped

  -- On a list or an absent key, what LTRIM leaves is what LRANGE showed of the same range.
  lrange-ltrim :
      (start stop : ℤ)
      → lrange (ltrim kv key start stop now).1 key (pos 0) (negsuc 0) now
        ≡ lrange kv key start stop now
  unfolding ltrim
  lrange-ltrim start stop =
      let trimmed =
        modify-here list_kind kv h key now
          (λ (items : List Bytes). (done tt, slice (range_of (length items) start stop) items))
          items there in
      let left = slice (range_of (length items) start stop) items in
      lrange-contents _ key (pos 0) (negsuc 0) now left (trimmed.1)
      ∙ (ap done (slice-whole left) ∙ sym (lrange-contents kv key start stop now items there))
