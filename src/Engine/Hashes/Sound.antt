-- ===== src/Engine/Hashes/Sound.antt =====
-- What the hash operations do to the fields that a key shows.
use dbx_database_extreme.Base.{
  ℕ, ◌+◌, ◌≡◌, refl, sym, ◌∙◌, ap, Bytes, Option, none, some, List, [], ◌∷◌, arith, length, Dict,
  lookup, insert, erase, lookup-insert, lookup-erase, length-insert, eqb, eqb_iff, eqb_refl, ℤ,
  ◌+ℤ◌, wrap64, wrap64-IsInt64, IsInt64, if◌then◌else◌, Bool-cases, Option-cases, inl, inr,
}
use dbx_database_extreme.Util.Decimal.{format_int, parse_int-format_int}
use dbx_database_extreme.Engine.Kv.{KvStore}
use dbx_database_extreme.Engine.Kv.Expiry.{contains}
use dbx_database_extreme.Engine.Kv.Shards.{IsSharded}
use dbx_database_extreme.Engine.Typed.{done, contents}
use dbx_database_extreme.Engine.Typed.Sound.{modify-here, modify-IsSharded, inspect-contents}
use dbx_database_extreme.Engine.Hashes.{
  hash_kind, set_fields, delete_fields, field_value, add_to_field, hset, hget, hdel, hlen, hincrby,
}

abbrev pub first_of : Option Bytes → Option Bytes → Option Bytes
first_of none o = o
first_of (some v) o = some v

lookup-set_fields :
    (pairs m : Dict Bytes) (f : Bytes)
    → lookup f (set_fields pairs m).1 ≡ first_of (lookup f pairs) (lookup f m)
unfolding set_fields lookup
lookup-set_fields [] m f = refl
lookup-set_fields ((g, v) ∷ pairs) m f =
    lookup-insert g f v (set_fields pairs m).1 ∙ elim (Bool-cases (eqb g f)) [
      | inl same ↦ rw same
      | inr other ↦ rw other (lookup-set_fields pairs m f)
    ]

length-set_fields :
    (pairs m : Dict Bytes) → length (set_fields pairs m).1 ≡ (set_fields pairs m).0 + length m
unfolding set_fields
length-set_fields [] m = omega arith
length-set_fields ((g, v) ∷ pairs) m =
    length-insert g v (set_fields pairs m).1 ∙ ground (arith, length-set_fields pairs m)

lookup-delete_fields :
    (fields : List Bytes) (m : Dict Bytes) (f : Bytes)
    → lookup f (delete_fields fields m).1 ≡ (if contains fields f then none else lookup f m)
unfolding delete_fields
lookup-delete_fields [] m f = refl
lookup-delete_fields (g ∷ fields) m f = elim (Option-cases (lookup g m)) [
  | inl e ↦ rw e (lookup-delete_fields fields m f ∙ ground (arith, eqb_iff g f))
  | inr (a, e) ↦
      rw e (lookup-delete_fields fields (erase g m) f ∙ ground (arith, lookup-erase g f m))
]

done_inj : {A : Type 0} {x y : A} → done x ≡ done y → x ≡ y
done_inj h = cc

add_to_field-value :
    (field : Bytes) (d : ℤ) (m : Dict Bytes) (n : ℤ)
    → field_value (lookup field m) ≡ some n
    → add_to_field field d m
      ≡ (done (wrap64 (n +ℤ d)), insert field (format_int (wrap64 (n +ℤ d))) m)
unfolding add_to_field
add_to_field-value field d m n h = rw (h, add_to_field)

field_value-insert :
    (field : Bytes) (n : ℤ) (m : Dict Bytes)
    → IsInt64 n
    → field_value (lookup field (insert field (format_int n) m)) ≡ some n
unfolding field_value
field_value-insert field n m h =
    rw (lookup-insert field field (format_int n) m) (rw (eqb_refl field) (parse_int-format_int n h))

module _ (kv : KvStore) (h : IsSharded kv) (key : Bytes) (now : ℤ) (m : Dict Bytes)
    (there : contents hash_kind kv key now ≡ some m) where
  hget-contents :
      (kv' : KvStore) (m' : Dict Bytes) (f : Bytes)
      → contents hash_kind kv' key now ≡ some m'
      → hget kv' key f now ≡ done (lookup f m')
  unfolding hget hash_kind lookup
  hget-contents kv' m' f c =
      inspect-contents hash_kind kv' key now (done none) (λ (m : Dict Bytes). done (lookup f m)) m'
        c refl

  hlen-contents :
      (kv' : KvStore) (m' : Dict Bytes)
      → contents hash_kind kv' key now ≡ some m'
      → hlen kv' key now ≡ done (length m')
  unfolding hlen hash_kind
  hlen-contents kv' m' c =
      inspect-contents hash_kind kv' key now (done 0) (λ (m : Dict Bytes). done (length m)) m' c
        refl

  -- After HSET on a hash or an absent key, a field has the value given, or the one that it
  -- had, and HSET answers by how many fields the hash has grown.
  pub hget-hset :
      (pairs : Dict Bytes) (f : Bytes) (added : ℕ)
      → (hset kv key pairs now).0 ≡ done added
      → (hget (hset kv key pairs now).1 key f now ≡ done (first_of (lookup f pairs) (lookup f m)))
        × (hlen (hset kv key pairs now).1 key now ≡ done (added + length m))
  unfolding hset
  hget-hset pairs f added answer =
      let (a, left) =
        modify-here hash_kind kv h key now
          (λ (m : Dict Bytes). (done (set_fields pairs m).0, (set_fields pairs m).1)) m there in
      let same : (set_fields pairs m).0 ≡ added = done_inj (sym a ∙ answer) in
      (
        hget-contents _ _ f left ∙ ap done (lookup-set_fields pairs m f),
        hlen-contents _ _ left ∙ ap done (length-set_fields pairs m ∙ ap (λ n. n + length m) same),
      )

  -- After HDEL on a hash or an absent key, the fields given are gone, and the others as
  -- before.
  hget-hdel :
      (fields : List Bytes) (f : Bytes)
      → hget (hdel kv key fields now).1 key f now
        ≡ done (if contains fields f then none else lookup f m)
  unfolding hdel
  hget-hdel fields f =
      let (a, left) =
        modify-here hash_kind kv h key now
          (λ (m : Dict Bytes). (done (delete_fields fields m).0, (delete_fields fields m).1)) m
          there in
      hget-contents _ _ f left ∙ ap done (lookup-delete_fields fields m f)

  -- HINCRBY of a field that is absent or holds a number answers the sum, wrapped to the range
  -- of `int64`, and leaves a text that the next HINCRBY reads as that number.
  hincrby-hincrby :
      (field : Bytes) (n d d' : ℤ)
      → field_value (lookup field m) ≡ some n
      → ((hincrby kv key field d now).0 ≡ done (wrap64 (n +ℤ d)))
        × ((hincrby (hincrby kv key field d now).1 key field d' now).0
            ≡ done (wrap64 (wrap64 (n +ℤ d) +ℤ d')))
  unfolding hincrby
  hincrby-hincrby field n d d' value =
      let (a, left) = modify-here hash_kind kv h key now (add_to_field field d) m there in
      let one = add_to_field-value field d m n value in
      let m' = insert field (format_int (wrap64 (n +ℤ d))) m in
      let two =
        add_to_field-value field d' m' (wrap64 (n +ℤ d))
          (field_value-insert field (wrap64 (n +ℤ d)) m (wrap64-IsInt64 (n +ℤ d))) in
      let g = modify-IsSharded hash_kind kv h key now (add_to_field field d) in
      let (b, _) = modify-here hash_kind _ g key now (add_to_field field d') m' (left ∙ rw one) in
      (a ∙ rw one, b ∙ rw two)
