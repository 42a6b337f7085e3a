-- ===== src/Query/Stores/Untouched.antt =====
-- A command on a hash, a list or a set leaves the other keys alone.
use dbx_database_extreme.Base.{
  ℕ, ◌≡◌, refl, ap, ◌∙◌, Bool, true, false, Bytes, List, [], eqb, ltb, ℤ, pos, if◌then◌else◌,
}
use dbx_database_extreme.Engine.Kv.{KvStore, find}
use dbx_database_extreme.Engine.Kv.Shards.{IsSharded}
use dbx_database_extreme.Engine.Typed.{Kind, Answer, modify, done}
use dbx_database_extreme.Engine.Typed.Sound.{modify-find}
use dbx_database_extreme.Engine.Hashes.{hset, hdel, hincrby, hash_kind, set_fields, add_to_field}
use dbx_database_extreme.Engine.Lists.{lpush, rpush, lpop, rpop, list_kind, pop_front, pop_back}
use dbx_database_extreme.Engine.Sets.{sadd, srem, spop, set_kind, pop_members}
use dbx_database_extreme.Query.Command.{Command, arg, num_args, normalized}
use dbx_database_extreme.Query.Effects.{is_even}
use dbx_database_extreme.Query.Executor.{Executor, Outcome}
use dbx_database_extreme.Query.Dispatch.{answered, wrong_args, refuse, with_kv, pairs_of}
use dbx_database_extreme.Query.Reply.{Frame}
use dbx_database_extreme.Query.Crash.Replies.{answered-kv}
use dbx_database_extreme.Query.Stores.{
  StoreVerb, on_getrange, on_hset, on_hmset, on_hget, on_hmget, on_hdel, on_hgetall, on_hkeys,
  on_hvals, on_hlen, on_hexists, on_hincrby, on_lpush, on_rpush, on_lpop, on_rpop, on_lrange,
  on_llen, on_lindex, on_sadd, on_srem, on_smembers, on_sismember, on_scard, on_spop, written,
  hset_handler, dispatch_store, rest_args, number_at,
}

pub written-kv :
    {B : Type 0} (e : Executor) (p : Answer B × KvStore) (f : B → List Frame)
    → (written e p f).1.kv ≡ p.1
unfolding written
written-kv e p f = answered-kv (with_kv e p.1) p.0 f

module _ (e : Executor) (j : Bytes) where
  -- The key is found as before.
  abbrev IsKept : Outcome → Type 0
  IsKept o = find o.1.kv j ≡ find e.kv j

  if-IsKept : (b : Bool) (p q : Outcome) → IsKept p → IsKept q → IsKept (if b then p else q)
  if-IsKept true p q h k = h
  if-IsKept false p q h k = k

  read-IsKept : {B : Type 0} (a : Answer B) (f : B → List Frame) → IsKept (answered e a f)
  read-IsKept a f = ap (λ kv. find kv j) (answered-kv e a f)

  guarded-IsKept :
      {B : Type 0} (b : Bool) (name : Bytes) (a : Answer B) (f : B → List Frame)
      → IsKept (if b then wrong_args e name else answered e a f)
  unfolding wrong_args
  guarded-IsKept b name a f = if-IsKept b _ _ refl (read-IsKept a f)

module _ (e : Executor) (cmd : Command) (clock : ℕ → ℤ) (j : Bytes) (h : IsSharded e.kv)
    (d : eqb (arg cmd 0) j ≡ false) where
  write-IsKept :
      {A B : Type 0} (k : Kind A) (g : A → Answer B × A) (f : B → List Frame)
      → IsKept e j (written e (modify k e.kv (arg cmd 0) (clock 0) g) f)
  write-IsKept k g f =
      ap (λ kv. find kv j) (written-kv e (modify k e.kv (arg cmd 0) (clock 0) g) f)
      ∙ modify-find k e.kv h (arg cmd 0) (clock 0) g j d

  guarded_write-IsKept :
      {A B : Type 0} (b : Bool) (name : Bytes) (k : Kind A) (g : A → Answer B × A)
      (f : B → List Frame)
      → IsKept e j
          (if b then wrong_args e name else written e (modify k e.kv (arg cmd 0) (clock 0) g) f)
  unfolding wrong_args
  guarded_write-IsKept b name k g f = if-IsKept e j b _ _ refl (write-IsKept k g f)

  hset_handler-IsKept : (reply : ℕ → List Frame) → IsKept e j (hset_handler e cmd reply clock)
  unfolding hset_handler wrong_args refuse hset
  hset_handler-IsKept reply = if-IsKept e j (ltb (num_args cmd) 3) _ _ refl (
      if-IsKept e j (is_even (num_args cmd)) _ _ refl (
        write-IsKept hash_kind
          (λ m. (
            done (set_fields (pairs_of (rest_args cmd) []) m).0,
            (set_fields (pairs_of (rest_args cmd) []) m).1,
          ))
          reply))

  module _ (shuffle : List Bytes → List Bytes) where
    -- A command on a hash, a list or a set leaves every key but its first argument as it is found.
    pub dispatch_store-IsKept : (v : StoreVerb) → IsKept e j (dispatch_store shuffle v e cmd clock)
    unfolding dispatch_store hdel hincrby lpush rpush lpop rpop sadd srem spop
    dispatch_store-IsKept on_getrange =
        guarded-IsKept e j (ltb (num_args cmd) 3) (normalized cmd) _ _
    dispatch_store-IsKept on_hset = hset_handler-IsKept _
    dispatch_store-IsKept on_hmset = hset_handler-IsKept _
    dispatch_store-IsKept on_hget = guarded-IsKept e j (ltb (num_args cmd) 2) (normalized cmd) _ _
    dispatch_store-IsKept on_hmget = guarded-IsKept e j (ltb (num_args cmd) 2) (normalized cmd) _ _
    dispatch_store-IsKept on_hdel =
        guarded_write-IsKept (ltb (num_args cmd) 2) (normalized cmd) hash_kind _ _
    dispatch_store-IsKept on_hgetall = read-IsKept e j _ _
    dispatch_store-IsKept on_hkeys = read-IsKept e j _ _
    dispatch_store-IsKept on_hvals = read-IsKept e j _ _
    dispatch_store-IsKept on_hlen = read-IsKept e j _ _
    dispatch_store-IsKept on_hexists = read-IsKept e j _ _
    dispatch_store-IsKept on_hincrby =
        guarded_write-IsKept (ltb (num_args cmd) 3) (normalized cmd) hash_kind
          (add_to_field (arg cmd 1) (number_at cmd 2)) _
    dispatch_store-IsKept on_lpush =
        guarded_write-IsKept (ltb (num_args cmd) 2) (normalized cmd) list_kind _ _
    dispatch_store-IsKept on_rpush =
        guarded_write-IsKept (ltb (num_args cmd) 2) (normalized cmd) list_kind _ _
    dispatch_store-IsKept on_lpop = write-IsKept list_kind (pop_front (pos 1)) _
    dispatch_store-IsKept on_rpop = write-IsKept list_kind (pop_back (pos 1)) _
    dispatch_store-IsKept on_lrange = guarded-IsKept e j (ltb (num_args cmd) 3) (normalized cmd) _ _
    dispatch_store-IsKept on_llen = read-IsKept e j _ _
    dispatch_store-IsKept on_lindex = guarded-IsKept e j (ltb (num_args cmd) 2) (normalized cmd) _ _
    dispatch_store-IsKept on_sadd =
        guarded_write-IsKept (ltb (num_args cmd) 2) (normalized cmd) set_kind _ _
    dispatch_store-IsKept on_srem =
        guarded_write-IsKept (ltb (num_args cmd) 2) (normalized cmd) set_kind _ _
    dispatch_store-IsKept on_smembers = read-IsKept e j _ _
    dispatch_store-IsKept on_sismember = read-IsKept e j _ _
    dispatch_store-IsKept on_scard = read-IsKept e j _ _
    dispatch_store-IsKept on_spop = write-IsKept set_kind (pop_members shuffle (pos 1)) _
