-- ===== src/Query/Stores.antt =====
-- `Dispatch` of internal/query/executor.go: the cases on hashes, lists and sets, and GETRANGE. Each makes one
-- reading of the clock at most.
pub mod Untouched
pub mod Reads
pub mod Replica
use dbx_database_extreme.Base.{
  ℕ, ◌+◌, ◌*◌, Bool, true, false, not, Bytes, Option, none, some, List, [], ◌∷◌, map, Dict, lookup,
  codes, drop, length, ltb, ℤ, pos, negsuc, if◌then◌else◌,
}
use dbx_database_extreme.Util.Decimal.Clamped.{parse_clamped}
use dbx_database_extreme.Engine.Kv.{KvStore}
use dbx_database_extreme.Engine.Typed.{Answer}
use dbx_database_extreme.Engine.Strings.{get_range}
use dbx_database_extreme.Engine.Hashes.{
  hset, hget, hmget, hdel, hgetall, hkeys, hvals, hlen, hexists, hincrby,
}
use dbx_database_extreme.Engine.Lists.{lpush, rpush, lpop, rpop, lrange, llen, lindex}
use dbx_database_extreme.Engine.Sets.{sadd, srem, smembers, sismember, scard, spop}
use dbx_database_extreme.Query.Command.{Command, arg, num_args, normalized}
use dbx_database_extreme.Query.Effects.{is_even}
use dbx_database_extreme.Query.Reply.{
  Frame, integer, bulk, array, array_of, write_strings, ok_frame, store_error,
}
use dbx_database_extreme.Engine.Typed.{syntax}
use dbx_database_extreme.Query.Executor.{Executor, Outcome}
use dbx_database_extreme.Query.Dispatch.{answered, refuse, wrong_args, with_kv, flag, pairs_of}

pub data StoreVerb : Type 0 where
  on_getrange on_hset on_hmset on_hget on_hmget on_hdel on_hgetall on_hkeys : StoreVerb
  on_hvals on_hlen on_hexists on_hincrby on_lpush on_rpush on_lpop on_rpop : StoreVerb
  on_lrange on_llen on_lindex on_sadd on_srem on_smembers on_sismember : StoreVerb
  on_scard on_spop : StoreVerb

unfoldable pub store_verbs : Dict StoreVerb
store_verbs =
    (codes "GETRANGE", on_getrange)
    ∷ (codes "HSET", on_hset)
    ∷ (codes "HMSET", on_hmset)
    ∷ (codes "HGET", on_hget)
    ∷ (codes "HMGET", on_hmget)
    ∷ (codes "HDEL", on_hdel)
    ∷ (codes "HGETALL", on_hgetall)
    ∷ (codes "HKEYS", on_hkeys)
    ∷ (codes "HVALS", on_hvals)
    ∷ (codes "HLEN", on_hlen)
    ∷ (codes "HEXISTS", on_hexists)
    ∷ (codes "HINCRBY", on_hincrby)
    ∷ (codes "LPUSH", on_lpush)
    ∷ (codes "RPUSH", on_rpush)
    ∷ (codes "LPOP", on_lpop)
    ∷ (codes "RPOP", on_rpop)
    ∷ (codes "LRANGE", on_lrange)
    ∷ (codes "LLEN", on_llen)
    ∷ (codes "LINDEX", on_lindex)
    ∷ (codes "SADD", on_sadd)
    ∷ (codes "SREM", on_srem)
    ∷ (codes "SMEMBERS", on_smembers)
    ∷ (codes "SISMEMBER", on_sismember)
    ∷ (codes "SCARD", on_scard)
    ∷ (codes "SPOP", on_spop)
    ∷ []

abbrev pub counted : ℕ → List Frame
counted n = integer (pos n) ∷ []

-- The null bulk string, or the first of the values.
unfoldable pub first_of : List Bytes → List Frame
first_of [] = bulk none ∷ []
first_of (v ∷ values) = bulk (some v) ∷ []

unfoldable pub flattened : Dict Bytes → List (Option Bytes)
flattened [] = []
flattened ((k, v) ∷ m) = some k ∷ some v ∷ flattened m

-- `array_of` with the count of HGETALL.
unfoldable pub pair_frames : Dict Bytes → List Frame
unfolding flattened
pair_frames m = array (pos (length m * 2)) ∷ map bulk (flattened m)

-- What a write answers, with the store that it leaves.
unfoldable pub written : {B : Type 0} → Executor → Answer B × KvStore → (B → List Frame) → Outcome
unfolding answered
written e (a, kv) f = answered (with_kv e kv) a f

abbrev pub rest_args : Command → List Bytes
rest_args cmd = drop 1 cmd.args

abbrev pub number_at : Command → ℕ → ℤ
number_at cmd i = parse_clamped (arg cmd i)

-- The guard of HSET and HMSET, and the map of their pairs.
unfoldable pub hset_handler : Executor → Command → (ℕ → List Frame) → (ℕ → ℤ) → Outcome
unfolding wrong_args refuse written
hset_handler e cmd reply clock =
    if ltb (num_args cmd) 3
    then wrong_args e (normalized cmd)
    else if is_even (num_args cmd)
    then refuse e (store_error syntax)
    else written e (hset e.kv (arg cmd 0) (pairs_of (rest_args cmd) []) (clock 0)) reply

-- `shuffle` is `rand.Shuffle` of the members of a set.
module _ (shuffle : List Bytes → List Bytes) where
  unfoldable pub dispatch_store : StoreVerb → Executor → Command → (ℕ → ℤ) → Outcome
  unfolding hset_handler wrong_args answered written pair_frames first_of
  dispatch_store on_getrange e cmd clock =
      if ltb (num_args cmd) 3
      then wrong_args e (normalized cmd)
      else answered e (get_range e.kv (arg cmd 0) (number_at cmd 1) (number_at cmd 2) (clock 0))
          (λ v. bulk (some v) ∷ [])
  dispatch_store on_hset e cmd clock = hset_handler e cmd counted clock
  dispatch_store on_hmset e cmd clock = hset_handler e cmd (λ n. ok_frame ∷ []) clock
  dispatch_store on_hget e cmd clock =
      if ltb (num_args cmd) 2
      then wrong_args e (normalized cmd)
      else answered e (hget e.kv (arg cmd 0) (arg cmd 1) (clock 0)) (λ v. bulk v ∷ [])
  dispatch_store on_hmget e cmd clock =
      if ltb (num_args cmd) 2
      then wrong_args e (normalized cmd)
      else answered e (hmget e.kv (arg cmd 0) (rest_args cmd) (clock 0)) array_of
  dispatch_store on_hdel e cmd clock =
      if ltb (num_args cmd) 2
      then wrong_args e (normalized cmd)
      else written e (hdel e.kv (arg cmd 0) (rest_args cmd) (clock 0)) counted
  dispatch_store on_hgetall e cmd clock =
      answered e (hgetall e.kv (arg cmd 0) (clock 0)) pair_frames
  dispatch_store on_hkeys e cmd clock = answered e (hkeys e.kv (arg cmd 0) (clock 0)) write_strings
  dispatch_store on_hvals e cmd clock = answered e (hvals e.kv (arg cmd 0) (clock 0)) write_strings
  dispatch_store on_hlen e cmd clock = answered e (hlen e.kv (arg cmd 0) (clock 0)) counted
  dispatch_store on_hexists e cmd clock =
      answered e (hexists e.kv (arg cmd 0) (arg cmd 1) (clock 0)) flag
  dispatch_store on_hincrby e cmd clock =
      if ltb (num_args cmd) 3
      then wrong_args e (normalized cmd)
      else written e (hincrby e.kv (arg cmd 0) (arg cmd 1) (number_at cmd 2) (clock 0))
          (λ n. integer n ∷ [])
  dispatch_store on_lpush e cmd clock =
      if ltb (num_args cmd) 2
      then wrong_args e (normalized cmd)
      else written e (lpush e.kv (arg cmd 0) (rest_args cmd) (clock 0)) counted
  dispatch_store on_rpush e cmd clock =
      if ltb (num_args cmd) 2
      then wrong_args e (normalized cmd)
      else written e (rpush e.kv (arg cmd 0) (rest_args cmd) (clock 0)) counted
  dispatch_store on_lpop e cmd clock = written e (lpop e.kv (arg cmd 0) (pos 1) (clock 0)) first_of
  dispatch_store on_rpop e cmd clock = written e (rpop e.kv (arg cmd 0) (pos 1) (clock 0)) first_of
  dispatch_store on_lrange e cmd clock =
      if ltb (num_args cmd) 3
      then wrong_args e (normalized cmd)
      else answered e (lrange e.kv (arg cmd 0) (number_at cmd 1) (number_at cmd 2) (clock 0))
          write_strings
  dispatch_store on_llen e cmd clock = answered e (llen e.kv (arg cmd 0) (clock 0)) counted
  dispatch_store on_lindex e cmd clock =
      if ltb (num_args cmd) 2
      then wrong_args e (normalized cmd)
      else answered e (lindex e.kv (arg cmd 0) (number_at cmd 1) (clock 0)) (λ v. bulk v ∷ [])
  dispatch_store on_sadd e cmd clock =
      if ltb (num_args cmd) 2
      then wrong_args e (normalized cmd)
      else written e (sadd e.kv (arg cmd 0) (rest_args cmd) (clock 0)) counted
  dispatch_store on_srem e cmd clock =
      if ltb (num_args cmd) 2
      then wrong_args e (normalized cmd)
      else written e (srem e.kv (arg cmd 0) (rest_args cmd) (clock 0)) counted
  dispatch_store on_smembers e cmd clock =
      answered e (smembers e.kv (arg cmd 0) (clock 0)) write_strings
  dispatch_store on_sismember e cmd clock =
      answered e (sismember e.kv (arg cmd 0) (arg cmd 1) (clock 0)) flag
  dispatch_store on_scard e cmd clock = answered e (scard e.kv (arg cmd 0) (clock 0)) counted
  dispatch_store on_spop e cmd clock =
      written e (spop shuffle e.kv (arg cmd 0) (pos 1) (clock 0)) first_of

  -- `rest` stands for the cases that are neither here nor among those on keys and strings.
  module _ (rest : Executor → Command → (ℕ → ℤ) → Outcome) where
    unfoldable pub dispatch_found : Option StoreVerb → Executor → Command → (ℕ → ℤ) → Outcome
    unfolding dispatch_store
    dispatch_found none e cmd clock = rest e cmd clock
    dispatch_found (some v) e cmd clock = dispatch_store v e cmd clock

    unfoldable pub dispatch_stores : Executor → Command → (ℕ → ℤ) → Outcome
    unfolding dispatch_found store_verbs
    dispatch_stores e cmd clock = dispatch_found (lookup (normalized cmd) store_verbs) e cmd clock
