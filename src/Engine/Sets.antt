-- ===== src/Engine/Sets.antt =====
-- internal/engine/set.go. A set is Go's `map[string]struct{}`: a list of its members, each once. The
-- shuffle of `math/rand` is a parameter of the operations that use it.
pub mod Sound
use dbx_database_extreme.Base.{
  ℕ, zero, suc, Bool, true, false, not, ◌||◌, Bytes, Option, none, some, List, [], ◌∷◌, length,
  take, eqb, ℤ, pos, negsuc, if◌then◌else◌, refl,
}
use dbx_database_extreme.Engine.Entry.{Value, set_value, type_set}
use dbx_database_extreme.Engine.Kv.{KvStore}
use dbx_database_extreme.Engine.Typed.{Kind, Answer, done, failed, panicked, modify, inspect}

as_set : Value → Option (List Bytes)
as_set v = elim v [ set_value st ↦ some st | _ ↦ none ]

unfoldable pub set_kind : Kind (List Bytes)
unfolding as_set
set_kind = record {
  typ = type_set;
  empty = [];
  inject = set_value;
  project = as_set;
  project-inject = λ st. refl;
}

-- _, ok := st[k]
unfoldable pub has : List Bytes → Bytes → Bool
has [] k = false
has (x ∷ xs) k = eqb x k || has xs k

unfoldable pub put : Bytes → List Bytes → List Bytes
unfolding has
put k st = if has st k then st else k ∷ st

-- delete(st, k)
unfoldable pub discard : Bytes → List Bytes → List Bytes
discard k [] = []
discard k (x ∷ xs) = let rest = discard k xs in if eqb x k then rest else x ∷ rest

-- The keys of the first that the test keeps.
unfoldable pub keep : (Bytes → Bool) → List Bytes → List Bytes
keep p [] = []
keep p (x ∷ xs) = let rest = keep p xs in if p x then x ∷ rest else rest

unfoldable pub add_members : List Bytes → List Bytes → ℕ × List Bytes
unfolding put
add_members [] st = (0, st)
add_members (k ∷ members) st =
    let (added, st') = add_members members (put k st) in
    (if has st k then added else suc added, st')

unfoldable pub remove_members : List Bytes → List Bytes → ℕ × List Bytes
unfolding discard
remove_members [] st = (0, st)
remove_members (k ∷ members) st =
    let (removed, st') = remove_members members (discard k st) in
    (if has st k then suc removed else removed, st')

-- What `SUnion` does with one more set.
unfoldable pub put_all : List Bytes → List Bytes → List Bytes
put_all [] st = st
put_all (k ∷ members) st = put k (put_all members st)

unfoldable pub discard_all : List Bytes → List Bytes → List Bytes
discard_all [] st = st
discard_all (k ∷ members) st = discard k (discard_all members st)

unfoldable pub sadd : KvStore → Bytes → List Bytes → ℤ → Answer ℕ × KvStore
sadd kv key members now =
    modify set_kind kv key now (λ st. (done (add_members members st).0, (add_members members st).1))

unfoldable pub srem : KvStore → Bytes → List Bytes → ℤ → Answer ℕ × KvStore
srem kv key members now =
    modify set_kind kv key now
      (λ st. (done (remove_members members st).0, (remove_members members st).1))

unfoldable pub smembers : KvStore → Bytes → ℤ → Answer (List Bytes)
smembers kv key now = inspect set_kind kv key now (done []) (λ st. done st)

unfoldable pub sismember : KvStore → Bytes → Bytes → ℤ → Answer Bool
sismember kv key member now = inspect set_kind kv key now (done false) (λ st. done (has st member))

unfoldable pub scard : KvStore → Bytes → ℤ → Answer ℕ
scard kv key now = inspect set_kind kv key now (done 0) (λ st. done (length st))

unfoldable pub after : {A B : Type 0} → Answer A → (A → Answer B) → Answer B
after (done a) f = f a
after (failed e) f = failed e
after panicked f = panicked

-- The loop over the keys behind the first, each with its reading of the clock; an absent key has no
-- members.
unfoldable pub fold_keys :
    (List Bytes → List Bytes → List Bytes)
    → KvStore
    → List (Bytes × ℤ)
    → List Bytes
    → Answer (List Bytes)
unfolding after smembers
fold_keys op kv [] acc = done acc
fold_keys op kv ((key, now) ∷ keys) acc =
    after (smembers kv key now) (λ st. fold_keys op kv keys (op acc st))

-- An absent first key ends the call, whatever the others are.
unfoldable pub sinter : KvStore → List (Bytes × ℤ) → Answer (List Bytes)
unfolding fold_keys
sinter kv [] = done []
sinter kv ((key, now) ∷ keys) =
    inspect set_kind kv key now (done []) (fold_keys (λ acc st. keep (has st) acc) kv keys)

unfoldable pub sunion : KvStore → List (Bytes × ℤ) → Answer (List Bytes)
unfolding fold_keys
sunion kv keys = fold_keys (λ acc st. put_all st acc) kv keys []

unfoldable pub sdiff : KvStore → List (Bytes × ℤ) → Answer (List Bytes)
unfolding fold_keys
sdiff kv [] = done []
sdiff kv ((key, now) ∷ keys) =
    inspect set_kind kv key now (done []) (fold_keys (λ acc st. discard_all st acc) kv keys)

-- A negative count panics in `make`.
unfoldable pub pick : (List Bytes → List Bytes) → ℤ → List Bytes → Answer (List Bytes)
pick shuffle (negsuc n) st = panicked
pick shuffle (pos n) st = done (take n (shuffle st))

unfoldable pub srandmember :
    (List Bytes → List Bytes) → KvStore → Bytes → ℤ → ℤ → Answer (List Bytes)
unfolding pick
srandmember shuffle kv key count now = inspect set_kind kv key now (done []) (pick shuffle count)

unfoldable pub pop_members :
    (List Bytes → List Bytes) → ℤ → List Bytes → Answer (List Bytes) × List Bytes
pop_members shuffle (negsuc n) st = (panicked, st)
pop_members shuffle (pos n) st = (done (take n (shuffle st)), discard_all (take n (shuffle st)) st)

unfoldable pub spop :
    (List Bytes → List Bytes) → KvStore → Bytes → ℤ → ℤ → Answer (List Bytes) × KvStore
unfolding pop_members
spop shuffle kv key count now = modify set_kind kv key now (pop_members shuffle count)
