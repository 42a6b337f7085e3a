-- ===== src/Query/Crash/View.antt =====
-- What a store shows of each key, and what effects make of that. Times are numbers: a clock in front of
-- 1970 is left out.
use dbx_database_extreme.Base.{
  ℕ, ◌≡◌, refl, subst, ◌<◌, ◌≤◌, ◌^◌, ◌∙◌, ◌&&◌, Bytes, Option, none, some, List, [], ◌∷◌, ◌++◌,
  All, ◌⊎◌, inl, inr, arith, eqb, ltb, ◌==◌, ℤ, pos, pos_part, if◌then◌else◌, Bool-cases, zero, suc,
  get_or, replicate, leb_ℤ, lookup, All-append,
}
use dbx_database_extreme.Engine.Entry.{Entry, Value, DataType, bytes_value, type_string, is_expired}
use dbx_database_extreme.Engine.Kv.{KvStore, find, live, new, new_sized, shard_of, empty_shard}
use dbx_database_extreme.Util.Hash.{shard_index}
use dbx_database_extreme.Engine.Kv.Shards.{IsSharded}
use dbx_database_extreme.Persistence.Wal.Encode.{WalEffect, record_set, record_delete}
use dbx_database_extreme.Query.Effects.{put}

-- A value, its type and its deadline.
abbrev pub Content : Type 0
Content = Value × DataType × ℤ

abbrev pub shown : Option Entry → Option Content
shown none = none
shown (some e) = some (e.value, e.typ, e.expires_at)

-- What a reader finds at time l.
abbrev pub view : KvStore → Bytes → ℕ → Option Content
view kv j l = shown (live (find kv j) (pos l))

-- A string with a deadline (0 for none), seen at time l.
abbrev pub put_view : Bytes → ℕ → ℕ → Option Content
put_view b d l = if ltb 0 d && ltb d l then none else some (bytes_value b, type_string, pos d)

-- What a key shows behind the effects, if it showed `before` in front of them.
abbrev pub last_view : List WalEffect → Bytes → ℕ → Option Content → Option Content
last_view [] j l before = before
last_view (e ∷ es) j l before = last_view es j l (
    if eqb e.key j
    then (if e.typ == record_set then put_view e.value (pos_part e.expires_at) l else none)
    else before)

-- An effect that sets a key, with a deadline in the range of `int64` and not negative, or deletes it.
abbrev pub IsFinal : WalEffect → Type 0
IsFinal e =
    ((e.typ ≡ record_set) × ((d : ℕ) × (e.expires_at ≡ pos d) × (d < 2 ^ 63)))
    ⊎ (e.typ ≡ record_delete)

abbrev pub IsStringEntry : Entry → Type 0
IsStringEntry e =
    (b : Bytes) × (d : ℕ) × (e.value ≡ bytes_value b)
    × (e.typ ≡ type_string)
    × (e.expires_at ≡ pos d)
    × (d < 2 ^ 63)

-- Every entry, an expired one included, holds a string with a deadline in range.
abbrev pub IsClean : KvStore → Type 0
IsClean kv = (j : Bytes) (e : Entry) → find kv j ≡ some e → IsStringEntry e

-- From time n on, the second store shows what the effects make of the first.
abbrev pub Follows : KvStore → KvStore → List WalEffect → ℕ → Type 0
Follows kv kv' es n = (j : Bytes) (l : ℕ) → n < l → view kv' j l ≡ last_view es j l (view kv j l)

pub record IsStep (kv : KvStore) (kv' : KvStore) (es : List WalEffect) (n : ℕ) : Type 0 where
  pub final : All IsFinal es
  pub sharded : IsSharded kv'
  pub clean : IsClean kv'
  pub follows : Follows kv kv' es n

-- One key is written, with a string.
pub record IsWrite (kv : KvStore) (kv' : KvStore) (key b : Bytes) (d : ℕ) : Type 0 where
  pub entry : Entry
  pub has_value : entry.value ≡ bytes_value b
  pub has_typ : entry.typ ≡ type_string
  pub has_deadline : entry.expires_at ≡ pos d
  pub found : (j : Bytes) → find kv' j ≡ (if eqb key j then some entry else find kv j)

shown-string :
    (e : Entry) (b : Bytes) (d l : ℕ)
    → e.value ≡ bytes_value b
    → e.typ ≡ type_string
    → e.expires_at ≡ pos d
    → shown (live (some e) (pos l)) ≡ put_view b d l
unfolding live is_expired
shown-string e b d l v t x = rw x (elim (Bool-cases (ltb 0 d && ltb d l)) [
  | inl c ↦ ground (arith, c)
  | inr c ↦ ground (arith, c, v, t, x)
])

pub view-write :
    (kv kv' : KvStore) (key b : Bytes) (d : ℕ) (j : Bytes) (l : ℕ)
    → IsWrite kv kv' key b d
    → view kv' j l ≡ (if eqb key j then put_view b d l else view kv j l)
view-write kv kv' key b d j l w = rw (w.found j) (elim (Bool-cases (eqb key j)) [
  | inl e ↦ rw e (shown-string w.entry b d l w.has_value w.has_typ w.has_deadline)
  | inr e ↦ rw e
])

pub write-IsClean :
    (kv kv' : KvStore) (key b : Bytes) (d : ℕ)
    → IsClean kv
    → d < 2 ^ 63
    → IsWrite kv kv' key b d
    → IsClean kv'
write-IsClean kv kv' key b d c h w j e f = elim (Bool-cases (eqb key j)) [
  | inl k ↦
      let s : some w.entry ≡ some e = rw (w.found j, k) at f in
      subst (λ x. IsStringEntry x) {x = w.entry} {y = e} (cc)
        (b, d, w.has_value, w.has_typ, w.has_deadline, h)
  | inr k ↦ c j e (rw (w.found j, k) at f)
]

pub write-IsStep :
    (kv kv' : KvStore) (key b : Bytes) (d n : ℕ)
    → IsClean kv
    → d < 2 ^ 63
    → IsSharded kv'
    → IsWrite kv kv' key b d
    → IsStep kv kv' (put key b (pos d) ∷ []) n
unfolding put
write-IsStep kv kv' key b d n c h s w = record {
  final = (inl (refl, (d, refl, h)), tt);
  sharded = s;
  clean = write-IsClean kv kv' key b d c h w;
  follows = λ j l m. view-write kv kv' key b d j l w;
}

pub same-IsStep : (kv : KvStore) (n : ℕ) → IsClean kv → IsSharded kv → IsStep kv kv [] n
same-IsStep kv n c s = record { final = tt; sharded = s; clean = c; follows = λ j l m. refl }

last_view-append :
    (es fs : List WalEffect) (j : Bytes) (l : ℕ) (before : Option Content)
    → last_view (es ++ fs) j l before ≡ last_view fs j l (last_view es j l before)
last_view-append [] fs j l before = refl
last_view-append (e ∷ es) fs j l before = last_view-append es fs j l _

-- Steps one behind the other.
pub join-IsStep :
    (kv kv' kv'' : KvStore) (es fs : List WalEffect) (n m : ℕ)
    → n ≤ m
    → IsStep kv kv' es n
    → IsStep kv' kv'' fs m
    → IsStep kv kv'' (es ++ fs) m
join-IsStep kv kv' kv'' es fs n m h s t = record {
  final = All-append IsFinal es fs s.final t.final;
  sharded = t.sharded;
  clean = t.clean;
  follows = λ j l q.
      t.follows j l q
      ∙ (rw (s.follows j l (omega arith)) (rw (last_view-append es fs j l (view kv j l))));
}

get_or-empty : (n i : ℕ) → get_or (replicate n empty_shard) i empty_shard ≡ empty_shard
get_or-empty zero i = refl
get_or-empty (suc n) zero = refl
get_or-empty (suc n) (suc i) = get_or-empty n i

find-new : (n : ℤ) (j : Bytes) → find (new n) j ≡ none
unfolding find shard_of new new_sized lookup
find-new n j = elim (Bool-cases (leb_ℤ n (pos 0))) [
  | inl e ↦ rw e (rw (get_or-empty 256 (shard_index j 256)))
  | inr e ↦ rw e (rw (get_or-empty (pos_part n) (shard_index j (pos_part n))))
]

-- A new store is empty.
pub new-IsClean : (n : ℤ) → IsClean (new n)
new-IsClean n j e f = absurd (let b = rw (find-new n j) at f in cc)
