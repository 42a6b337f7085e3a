-- ===== src/Query/Crash/Paired.antt =====
-- MSET: the handler writes a map of the pairs, the effects are the pairs in order.
use dbx_database_extreme.Base.{
  ℕ, suc, ◌≡◌, refl, ◌∙◌, sym, ap, Bytes, Option, none, some, List, [], ◌∷◌, map, All, inl, inr,
  arith, eqb, eqb_iff, eqb_sound, pos, if◌then◌else◌, Bool-cases, Dict, lookup, insert,
  lookup-insert,
}
use dbx_database_extreme.Engine.Entry.{bytes_value, type_string}
use dbx_database_extreme.Engine.Kv.{KvStore, set_key}
use dbx_database_extreme.Engine.Kv.Shards.{IsSharded}
use dbx_database_extreme.Engine.Strings.{mset}
use dbx_database_extreme.Persistence.Wal.Encode.{WalEffect}
use dbx_database_extreme.Query.Effects.{put, put_pairs}
use dbx_database_extreme.Query.Dispatch.{pairs_of, timed_pairs}
use dbx_database_extreme.Query.Crash.View.{
  Content, view, last_view, put_view, IsClean, IsFinal, IsStep, same-IsStep, join-IsStep,
}
use dbx_database_extreme.Query.Crash.Replayed.{deadline_after-none}
use dbx_database_extreme.Query.Crash.Written.{set_key-IsStep}

abbrev puts : Dict Bytes → List WalEffect
puts pairs = map (λ (p : Bytes × Bytes). put p.0 p.1 (pos 0)) pairs

mset-IsStep :
    (kv : KvStore) (pairs : Dict Bytes) (n i : ℕ)
    → IsClean kv
    → IsSharded kv
    → IsStep kv (mset kv (timed_pairs pairs (λ x. pos n) i)) (puts pairs) n
unfolding mset timed_pairs
mset-IsStep kv [] n i c h = same-IsStep kv n c h
mset-IsStep kv ((k, v) ∷ pairs) n i c h =
    let s = set_key-IsStep kv c h k n v 0 0 (omega arith) (deadline_after-none n) in
    join-IsStep kv _ _ (put k v (pos 0) ∷ []) (puts pairs) n n (omega arith) s (
      mset-IsStep (set_key kv k (bytes_value v) type_string (pos 0) (pos n)) pairs n (suc i) s.clean
        s.sharded)

-- No key stands twice.
abbrev IsDistinct : Dict Bytes → Type 0
IsDistinct [] = Unit
IsDistinct ((k, v) ∷ pairs) = (lookup k pairs ≡ none) × IsDistinct pairs

insert-IsDistinct :
    (k v : Bytes) (pairs : Dict Bytes) → IsDistinct pairs → IsDistinct (insert k v pairs)
unfolding lookup insert
insert-IsDistinct k v [] d = (refl, tt)
insert-IsDistinct k v ((j, w) ∷ pairs) d = elim (Bool-cases (eqb j k)) [
  | inl e ↦ rw e (ap (λ x. lookup x pairs) (sym (eqb_sound j k e)) ∙ d.0, d.1)
  | inr e ↦ rw e (
    lookup-insert k j v pairs ∙ ground (arith, eqb_iff k j, eqb_iff j k, d.0),
    insert-IsDistinct k v pairs (d.1),
  )
]

pairs_of-IsDistinct :
    (args : List Bytes) (pairs : Dict Bytes) → IsDistinct pairs → IsDistinct (pairs_of args pairs)
unfolding pairs_of
pairs_of-IsDistinct [] pairs d = d
pairs_of-IsDistinct (k ∷ []) pairs d = d
pairs_of-IsDistinct (k ∷ v ∷ args) pairs d =
    pairs_of-IsDistinct args (insert k v pairs) (insert-IsDistinct k v pairs d)

abbrev seen : Option Bytes → ℕ → Option Content → Option Content
seen none l before = before
seen (some v) l before = put_view v 0 l

puts-view :
    (pairs : Dict Bytes) (j : Bytes) (l : ℕ) (before : Option Content)
    → IsDistinct pairs
    → last_view (puts pairs) j l before ≡ seen (lookup j pairs) l before
unfolding lookup put
puts-view [] j l before d = refl
puts-view ((k, v) ∷ pairs) j l before d =
    puts-view pairs j l (if eqb k j then put_view v 0 l else before) d.1
    ∙ elim (Bool-cases (eqb k j)) [
      | inl e ↦
          let none_left : lookup j pairs ≡ none =
            ap (λ x. lookup x pairs) (sym (eqb_sound k j e)) ∙ d.0 in
          rw (e, none_left)
      | inr e ↦ rw e
    ]

put_pairs-view :
    (args : List Bytes) (pairs : Dict Bytes) (j : Bytes) (l : ℕ) (before : Option Content)
    → last_view (put_pairs args) j l (seen (lookup j pairs) l before)
      ≡ seen (lookup j (pairs_of args pairs)) l before
unfolding put_pairs pairs_of put
put_pairs-view [] pairs j l before = refl
put_pairs-view (k ∷ []) pairs j l before = refl
put_pairs-view (k ∷ v ∷ args) pairs j l before =
    ap (last_view (put_pairs args) j l) {y = seen (lookup j (insert k v pairs)) l before}
      (rw (lookup-insert k j v pairs) (elim (Bool-cases (eqb k j)) [ inl e ↦ rw e | inr e ↦ rw e ]))
    ∙ put_pairs-view args (insert k v pairs) j l before

put_pairs-IsFinal : (args : List Bytes) → All IsFinal (put_pairs args)
unfolding put_pairs put
put_pairs-IsFinal [] = tt
put_pairs-IsFinal (k ∷ []) = tt
put_pairs-IsFinal (k ∷ v ∷ args) = (inl (refl, (0, refl, omega arith)), put_pairs-IsFinal args)

pub mset_handler-IsStep :
    (kv : KvStore) (args : List Bytes) (n : ℕ)
    → IsClean kv
    → IsSharded kv
    → IsStep kv (mset kv (timed_pairs (pairs_of args []) (λ x. pos n) 0)) (put_pairs args) n
unfolding lookup
mset_handler-IsStep kv args n c h =
    let s = mset-IsStep kv (pairs_of args []) n 0 c h in
    record {
      final = put_pairs-IsFinal args;
      sharded = s.sharded;
      clean = s.clean;
      follows = λ j l q.
          s.follows j l q
          ∙ (puts-view (pairs_of args []) j l (view kv j l) (pairs_of-IsDistinct args [] tt)
              ∙ sym (put_pairs-view args [] j l (view kv j l)));
    }
