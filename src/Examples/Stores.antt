-- ===== src/Examples/Stores.antt =====
-- A list, a hash, sets and a string in a store of two shards.
use dbx_database_extreme.Util.Decimal.{parse_int}
use dbx_database_extreme.Util.Hash.{shard_index}
use dbx_database_extreme.Base.{
  ◌≡◌, refl, true, false, Bytes, some, [], ◌∷◌, arith, codes, Dict, pos, negsuc, eqb, lookup,
  insert, ◌+ℤ◌, ◌-ℤ◌,
}
use dbx_database_extreme.Engine.Kv.{KvStore, new, new_sized, get, find}
use dbx_database_extreme.Engine.Kv.Shards.{IsSharded, new-IsSharded}
use dbx_database_extreme.Engine.Typed.{done, contents, modify}
use dbx_database_extreme.Engine.Typed.Sound.{modify-IsSharded, modify-here}
use dbx_database_extreme.Engine.Lists.{list_kind, rpush, lpush, lpop, range_of, from_end}
use dbx_database_extreme.Engine.Lists.Sound.{lpop-lpush}
use dbx_database_extreme.Engine.Hashes.{hash_kind, hset, hget, hlen, field_value, set_fields}
use dbx_database_extreme.Engine.Hashes.Sound.{hget-hset}
use dbx_database_extreme.Engine.Sets.{set_kind, sadd, srem, sismember, has, add_members}
use dbx_database_extreme.Engine.Sets.Sound.{sismember-sadd}
use dbx_database_extreme.Engine.Strings.SetArgs.{parse_set_args, parse_set_args-px}

abbrev a : Bytes
a = codes "a"

abbrev b : Bytes
b = codes "b"

abbrev two : KvStore
two = new (pos 2)

two-IsSharded : IsSharded two
two-IsSharded = new-IsSharded (pos 2)

two_list : contents list_kind two a (pos 5) ≡ some []
unfolding contents get find lookup new new_sized shard_index list_kind
two_list = refl

abbrev listed : KvStore
listed = (rpush two a (a ∷ b ∷ []) (pos 5)).1

listed-IsSharded : IsSharded listed
unfolding modify rpush
listed-IsSharded = modify-IsSharded list_kind two two-IsSharded a (pos 5) _

listed_there : contents list_kind listed a (pos 5) ≡ some (a ∷ b ∷ [])
unfolding modify contents rpush
listed_there = (modify-here list_kind two two-IsSharded a (pos 5) _ [] two_list).1

lpop-lpush_example :
    ((lpop (lpush listed a (b ∷ a ∷ []) (pos 5)).1 a (pos 2) (pos 5)).0 ≡ done (a ∷ b ∷ []))
    × (contents list_kind
          (lpop (lpush listed a (b ∷ a ∷ []) (pos 5)).1 a (pos 2) (pos 5)).1
          a
          (pos 5)
        ≡ some (a ∷ b ∷ []))
lpop-lpush_example =
    lpop-lpush listed listed-IsSharded a (pos 5) (a ∷ b ∷ []) listed_there (b ∷ a ∷ [])

range_of_five : range_of 5 (negsuc 2) (pos 9) ≡ some (2, 4)
unfolding range_of from_end ◌+ℤ◌ ◌-ℤ◌
range_of_five = refl

two_hash : contents hash_kind two a (pos 5) ≡ some []
unfolding contents get find lookup new new_sized shard_index hash_kind
two_hash = refl

abbrev pairs : Dict Bytes
pairs = (a, codes "7") ∷ (b, codes "x") ∷ []

abbrev hashed : KvStore
hashed = (hset two a pairs (pos 5)).1

hashed-IsSharded : IsSharded hashed
unfolding modify hset
hashed-IsSharded = modify-IsSharded hash_kind two two-IsSharded a (pos 5) _

hashed_there : contents hash_kind hashed a (pos 5) ≡ some ((b, codes "x") ∷ (a, codes "7") ∷ [])
unfolding modify contents hset set_fields insert eqb
hashed_there = (modify-here hash_kind two two-IsSharded a (pos 5) _ [] two_hash).1

hashed_answer : (hset hashed a ((a, b) ∷ (codes "c", a) ∷ []) (pos 5)).0 ≡ done 1
unfolding hset modify set_fields lookup insert eqb
hashed_answer = (modify-here hash_kind hashed hashed-IsSharded a (pos 5) _ _ hashed_there).0

hget-hset_example :
    (hget (hset hashed a ((a, b) ∷ (codes "c", a) ∷ []) (pos 5)).1 a a (pos 5) ≡ done (some b))
    × (hlen (hset hashed a ((a, b) ∷ (codes "c", a) ∷ []) (pos 5)).1 a (pos 5) ≡ done 3)
unfolding lookup eqb
hget-hset_example =
    hget-hset hashed hashed-IsSharded a (pos 5) ((b, codes "x") ∷ (a, codes "7") ∷ []) hashed_there
      ((a, b) ∷ (codes "c", a) ∷ []) a 1 hashed_answer

field_seven : field_value (lookup a ((b, codes "x") ∷ (a, codes "7") ∷ [])) ≡ some (pos 7)
unfolding field_value lookup eqb parse_int
field_seven = refl

two_set : contents set_kind two a (pos 5) ≡ some []
unfolding contents get find lookup new new_sized shard_index set_kind
two_set = refl

sismember-sadd_example :
    (sismember (sadd two a (b ∷ []) (pos 5)).1 a b (pos 5) ≡ done true)
    × (sismember (srem two a (b ∷ []) (pos 5)).1 a b (pos 5) ≡ done false)
unfolding has eqb
sismember-sadd_example = sismember-sadd two two-IsSharded a (pos 5) [] two_set (b ∷ []) b

abbrev grouped : KvStore
grouped = (sadd two a (a ∷ b ∷ []) (pos 5)).1

grouped_there : contents set_kind grouped a (pos 5) ≡ some (b ∷ a ∷ [])
unfolding modify contents sadd add_members eqb
grouped_there = (modify-here set_kind two two-IsSharded a (pos 5) _ [] two_set).1

parse_set_args-px_example :
    parse_set_args (a ∷ codes "px" ∷ codes "999" ∷ [])
    ≡ done (record { value = a; ttl_sec = pos 0; nx = false; xx = false })
unfolding parse_int
parse_set_args-px_example = parse_set_args-px a (codes "999") 999 refl (omega arith)
