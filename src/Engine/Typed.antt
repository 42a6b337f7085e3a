-- ===== src/Engine/Typed.antt =====
-- What the list, hash and set stores of internal/engine share: `getOrCreate` and `getReadOnly`, which
-- each of them spells out for its own type.
pub mod Sound
use dbx_database_extreme.Base.{Bool, Bytes, Option, none, some, eqb, ℤ, if◌then◌else◌, ◌≡◌}
use dbx_database_extreme.Engine.Entry.{Entry, Value, DataType, fresh_entry}
use dbx_database_extreme.Engine.Kv.{KvStore, store, get, get_for_write}

-- A type of values: its tag in the entry, and its place among the dynamic types.
pub record Kind (A : Type 0) : Type 0 where
  pub typ : DataType
  pub empty : A
  pub inject : A → Value
  pub project : Value → Option A
  pub project-inject : (a : A) → project (inject a) ≡ some a

pub data StoreError : Type 0 where
  wrong_type value_out_of_range index_out_of_range syntax missing_value : StoreError

-- `panicked` is a run-time panic: a failed type assertion, or an index out of range.
pub data Answer (A : Type 0) : Type 0 where
  done : A → Answer A
  failed : StoreError → Answer A
  panicked : Answer A

pub data Opened (A : Type 0) : Type 0 where
  opened : Entry → A → Opened A
  refused : Opened A
  not_asserted : Opened A

module _ {A : Type 0} (k : Kind A) where
  unfoldable pub assert_kind : Entry → Opened A
  assert_kind e =
      if eqb e.typ k.typ
      then elim (k.project e.value) [ none ↦ not_asserted | some a ↦ opened e a ]
      else refused

  unfoldable pub create : KvStore → Bytes → Option Entry → Opened A × KvStore
  unfolding assert_kind
  create kv key none =
      let e = fresh_entry (k.inject k.empty) k.typ in (opened e k.empty, store kv key e)
  create kv key (some e) = (assert_kind e, kv)

  unfoldable pub get_or_create : KvStore → Bytes → ℤ → Opened A × KvStore
  unfolding create
  get_or_create kv key now = create (get_for_write kv key now).1 key (get_for_write kv key now).0

  -- none: there is no such key.
  unfoldable pub get_read_only : KvStore → Bytes → ℤ → Option (Opened A)
  unfolding assert_kind
  get_read_only kv key now = elim (get kv key now) [ none ↦ none | some e ↦ some (assert_kind e) ]

  -- A write works on the value in place: `f` is what it answers, and the value that it leaves.
  unfoldable pub write_back :
      {B : Type 0} → KvStore → Bytes → Opened A → (A → Answer B × A) → Answer B × KvStore
  write_back kv key (opened e a) f = ((f a).0, store kv key (record e { value = k.inject (f a).1 }))
  write_back kv key refused f = (failed wrong_type, kv)
  write_back kv key not_asserted f = (panicked, kv)

  unfoldable pub modify :
      {B : Type 0} → KvStore → Bytes → ℤ → (A → Answer B × A) → Answer B × KvStore
  unfolding write_back get_or_create
  modify kv key now f = write_back (get_or_create kv key now).1 key (get_or_create kv key now).0 f

  unfoldable pub answer_of : {B : Type 0} → Option (Opened A) → Answer B → (A → Answer B) → Answer B
  answer_of none missing f = missing
  answer_of (some (opened e a)) missing f = f a
  answer_of (some refused) missing f = failed wrong_type
  answer_of (some not_asserted) missing f = panicked

  -- A read: `missing` is the answer if there is no such key.
  unfoldable pub inspect : {B : Type 0} → KvStore → Bytes → ℤ → Answer B → (A → Answer B) → Answer B
  unfolding answer_of get_read_only
  inspect kv key now missing f = answer_of (get_read_only kv key now) missing f

  -- The value that the store shows at a key: an absent key has the empty one, a key of another type
  -- has none.
  unfoldable pub contents_of : Option Entry → Option A
  contents_of none = some k.empty
  contents_of (some e) = if eqb e.typ k.typ then k.project e.value else none

  unfoldable pub contents : KvStore → Bytes → ℤ → Option A
  unfolding contents_of
  contents kv key now = contents_of (get kv key now)
