-- ===== src/Engine/Lists.antt =====
-- internal/engine/list.go. Each operation of `ListStore` is a function on the items of the list, which
-- `modify` or `inspect` applies to the value at the key. Go's `nil` and empty slices are both [].
pub mod Range
pub mod Sound
use dbx_database_extreme.Base.{
  ℕ, zero, suc, ◌+◌, ◌-◌, Bool, Bytes, Option, none, some, List, [], ◌∷◌, ◌++◌, length, take, drop,
  get_elem?, set, ℤ, pos, negsuc, ◌+ℤ◌, ◌-ℤ◌, ltb_ℤ, leb_ℤ, pos_part, ltb, leb, ◌==◌, ◌||◌,
  if◌then◌else◌, arith, refl,
}
use dbx_database_extreme.Engine.Entry.{Value, list_value, type_list}
use dbx_database_extreme.Engine.Kv.{KvStore}
use dbx_database_extreme.Engine.Typed.{
  Kind, Answer, done, failed, panicked, Opened, index_out_of_range, get_or_create, get_read_only,
  modify, inspect,
}

as_list : Value → Option (List Bytes)
as_list v = elim v [ list_value items ↦ some items | _ ↦ none ]

unfoldable pub list_kind : Kind (List Bytes)
unfolding as_list
list_kind = record {
  typ = type_list;
  empty = [];
  inject = list_value;
  project = as_list;
  project-inject = λ items. refl;
}

-- A negative index counts from the end.
unfoldable pub from_end : ℕ → ℤ → ℤ
from_end n i = if ltb_ℤ i (pos 0) then pos n +ℤ i else i

-- The first and the last index of a range in n elements, cut to them.
unfoldable pub clamp : ℕ → ℤ → ℤ → Option (ℕ × ℕ)
clamp n start stop =
    let first = if ltb_ℤ start (pos 0) then pos 0 else start in
    let last = if leb_ℤ (pos n) stop then pos n -ℤ pos 1 else stop in
    if ltb_ℤ last first then none else some (pos_part first, pos_part last)

unfoldable pub range_of : ℕ → ℤ → ℤ → Option (ℕ × ℕ)
unfolding from_end clamp
range_of n start stop = clamp n (from_end n start) (from_end n stop)

-- items[first : last + 1]
unfoldable pub slice : {A : Type 0} → Option (ℕ × ℕ) → List A → List A
slice none items = []
slice (some (first, last)) items = take (last - first + 1) (drop first items)

-- One value after another goes to the front.
unfoldable pub push_front : List Bytes → List Bytes → List Bytes
push_front [] items = items
push_front (v ∷ values) items = push_front values (v ∷ items)

-- A negative count: `make` panics, unless the list is empty.
unfoldable pub pop_front : ℤ → List Bytes → Answer (List Bytes) × List Bytes
pop_front count [] = (done [], [])
pop_front (negsuc n) (x ∷ xs) = (panicked, x ∷ xs)
pop_front (pos n) (x ∷ xs) = (done (take n (x ∷ xs)), drop n (x ∷ xs))

unfoldable pub pop_back : ℤ → List Bytes → Answer (List Bytes) × List Bytes
pop_back count [] = (done [], [])
pop_back (negsuc n) (x ∷ xs) = (panicked, x ∷ xs)
pop_back (pos n) (x ∷ xs) =
    let start = length (x ∷ xs) - n in (done (drop start (x ∷ xs)), take start (x ∷ xs))

unfoldable pub out_of_bounds : ℤ → ℕ → Bool
out_of_bounds i n = ltb_ℤ i (pos 0) || leb_ℤ (pos n) i

unfoldable pub item_at : ℤ → List Bytes → Option Bytes
unfolding from_end out_of_bounds
item_at index items =
    let i = from_end (length items) index in
    if out_of_bounds i (length items) then none else get_elem? items (pos_part i)

unfoldable pub set_item : ℤ → Bytes → List Bytes → Answer Unit × List Bytes
unfolding from_end out_of_bounds
set_item index value items =
    let i = from_end (length items) index in
    if out_of_bounds i (length items)
    then (failed index_out_of_range, items)
    else (done tt, set items (pos_part i) value)

unfoldable pub lpush : KvStore → Bytes → List Bytes → ℤ → Answer ℕ × KvStore
lpush kv key values now =
    modify list_kind kv key now
      (λ items. (done (length (push_front values items)), push_front values items))

unfoldable pub rpush : KvStore → Bytes → List Bytes → ℤ → Answer ℕ × KvStore
rpush kv key values now =
    modify list_kind kv key now (λ items. (done (length (items ++ values)), items ++ values))

unfoldable pub lpop : KvStore → Bytes → ℤ → ℤ → Answer (List Bytes) × KvStore
unfolding pop_front
lpop kv key count now = modify list_kind kv key now (pop_front count)

unfoldable pub rpop : KvStore → Bytes → ℤ → ℤ → Answer (List Bytes) × KvStore
unfolding pop_back
rpop kv key count now = modify list_kind kv key now (pop_back count)

unfoldable pub lrange : KvStore → Bytes → ℤ → ℤ → ℤ → Answer (List Bytes)
lrange kv key start stop now =
    inspect list_kind kv key now (done [])
      (λ items. done (slice (range_of (length items) start stop) items))

unfoldable pub llen : KvStore → Bytes → ℤ → Answer ℕ
llen kv key now = inspect list_kind kv key now (done 0) (λ items. done (length items))

unfoldable pub lindex : KvStore → Bytes → ℤ → ℤ → Answer (Option Bytes)
lindex kv key index now =
    inspect list_kind kv key now (done none) (λ items. done (item_at index items))

unfoldable pub lset : KvStore → Bytes → ℤ → Bytes → ℤ → Answer Unit × KvStore
unfolding set_item
lset kv key index value now = modify list_kind kv key now (set_item index value)

unfoldable pub ltrim : KvStore → Bytes → ℤ → ℤ → ℤ → Answer Unit × KvStore
ltrim kv key start stop now =
    modify list_kind kv key now
      (λ items. (done tt, slice (range_of (length items) start stop) items))
