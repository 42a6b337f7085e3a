-- ===== src/Query/Command.antt =====
-- internal/protocol/command.go: commands, the registry of what each does, and the keys it touches.
use dbx_database_extreme.Base.{
  ℕ, zero, suc, Bool, true, false, ◌&&◌, ◌||◌, not, Bytes, Option, none, some, List, [], ◌∷◌, Dict,
  lookup, codes, eqb, length, get_or, leb, ℤ, pos, negsuc, if◌then◌else◌,
}
use dbx_database_extreme.Engine.Kv.Expiry.{contains}
use dbx_database_extreme.Engine.Strings.SetArgs.{to_upper}

pub record Command : Type 0 where
  pub name : Bytes
  pub args : List Bytes
  pub client_id : ℕ

-- `Arg` and `ArgBytes`: out of bounds, the empty string and nil, which are one here.
unfoldable pub arg : Command → ℕ → Bytes
arg cmd i = get_or cmd.args i []

unfoldable pub num_args : Command → ℕ
num_args cmd = length cmd.args

unfoldable pub normalized : Command → Bytes
normalized cmd = to_upper cmd.name

-- A negative arity -n means n arguments at least; the key is the argument numbered `key_index` from 1.
pub record CommandInfo : Type 0 where
  pub name : Bytes
  pub arity : ℤ
  pub read_only : Bool
  pub admin : Bool
  pub key_index : ℕ
  pub durable_v1 : Bool

-- What a literal of the registry names beside the name, the arity and the index of the key.
pub data Trait : Type 0 where
  plain reads admin durable durable_admin : Trait

unfoldable pub is_read : Trait → Bool
is_read t = elim t [ reads ↦ true | _ ↦ false ]

unfoldable pub is_admin : Trait → Bool
is_admin t = elim t [ admin ↦ true | durable_admin ↦ true | _ ↦ false ]

unfoldable pub is_durable : Trait → Bool
is_durable t = elim t [ durable ↦ true | durable_admin ↦ true | _ ↦ false ]

unfoldable pub info : Bytes → ℤ → Trait → ℕ → Bytes × CommandInfo
unfolding is_read is_admin is_durable
info name arity t key_index = (
  name,
  record {
    name = name;
    arity = arity;
    read_only = is_read t;
    admin = is_admin t;
    key_index = key_index;
    durable_v1 = is_durable t;
  },
)

unfoldable pub registry : Dict CommandInfo
unfolding info
registry =
    info (codes "GET") (pos 2) reads 1
    ∷ info (codes "SET") (negsuc 2) durable 1
    ∷ info (codes "SETEX") (pos 4) durable 1
    ∷ info (codes "DEL") (negsuc 1) durable 1
    ∷ info (codes "EXISTS") (negsuc 1) reads 1
    ∷ info (codes "EXPIRE") (pos 3) durable 1
    ∷ info (codes "TTL") (pos 2) reads 1
    ∷ info (codes "PERSIST") (pos 2) durable 1
    ∷ info (codes "TYPE") (pos 2) reads 1
    ∷ info (codes "RENAME") (pos 3) durable 1
    ∷ info (codes "KEYS") (pos 2) reads 0
    ∷ info (codes "SCAN") (negsuc 1) reads 0
    ∷ info (codes "INCR") (pos 2) durable 1
    ∷ info (codes "INCRBY") (pos 3) durable 1
    ∷ info (codes "DECR") (pos 2) durable 1
    ∷ info (codes "DECRBY") (pos 3) durable 1
    ∷ info (codes "APPEND") (pos 3) durable 1
    ∷ info (codes "STRLEN") (pos 2) reads 1
    ∷ info (codes "GETRANGE") (pos 4) reads 1
    ∷ info (codes "SETRANGE") (pos 4) durable 1
    ∷ info (codes "MGET") (negsuc 1) reads 1
    ∷ info (codes "MSET") (negsuc 2) durable 1
    ∷ info (codes "SETNX") (pos 3) durable 1
    ∷ info (codes "GETSET") (pos 3) durable 1
    ∷ info (codes "HGET") (pos 3) reads 1
    ∷ info (codes "HSET") (negsuc 3) plain 1
    ∷ info (codes "HMGET") (negsuc 2) reads 1
    ∷ info (codes "HMSET") (negsuc 3) plain 1
    ∷ info (codes "HDEL") (negsuc 2) plain 1
    ∷ info (codes "HGETALL") (pos 2) reads 1
    ∷ info (codes "HKEYS") (pos 2) reads 1
    ∷ info (codes "HVALS") (pos 2) reads 1
    ∷ info (codes "HLEN") (pos 2) reads 1
    ∷ info (codes "HEXISTS") (pos 3) reads 1
    ∷ info (codes "HINCRBY") (pos 4) plain 1
    ∷ info (codes "LPUSH") (negsuc 2) plain 1
    ∷ info (codes "RPUSH") (negsuc 2) plain 1
    ∷ info (codes "LPOP") (negsuc 1) plain 1
    ∷ info (codes "RPOP") (negsuc 1) plain 1
    ∷ info (codes "LRANGE") (pos 4) reads 1
    ∷ info (codes "LLEN") (pos 2) reads 1
    ∷ info (codes "LINDEX") (pos 3) reads 1
    ∷ info (codes "LSET") (pos 4) plain 1
    ∷ info (codes "LREM") (pos 4) plain 1
    ∷ info (codes "LTRIM") (pos 4) plain 1
    ∷ info (codes "SADD") (negsuc 2) plain 1
    ∷ info (codes "SREM") (negsuc 2) plain 1
    ∷ info (codes "SMEMBERS") (pos 2) reads 1
    ∷ info (codes "SISMEMBER") (pos 3) reads 1
    ∷ info (codes "SCARD") (pos 2) reads 1
    ∷ info (codes "SINTER") (negsuc 1) reads 1
    ∷ info (codes "SUNION") (negsuc 1) reads 1
    ∷ info (codes "SDIFF") (negsuc 1) reads 1
    ∷ info (codes "SRANDMEMBER") (negsuc 1) reads 1
    ∷ info (codes "SPOP") (negsuc 1) plain 1
    ∷ info (codes "ZADD") (negsuc 3) plain 1
    ∷ info (codes "ZREM") (negsuc 2) plain 1
    ∷ info (codes "ZSCORE") (pos 3) reads 1
    ∷ info (codes "ZRANK") (pos 3) reads 1
    ∷ info (codes "ZREVRANK") (pos 3) reads 1
    ∷ info (codes "ZRANGE") (negsuc 3) reads 1
    ∷ info (codes "ZREVRANGE") (negsuc 3) reads 1
    ∷ info (codes "ZRANGEBYSCORE") (negsuc 3) reads 1
    ∷ info (codes "ZCARD") (pos 2) reads 1
    ∷ info (codes "ZINCRBY") (pos 4) plain 1
    ∷ info (codes "ZCOUNT") (pos 4) reads 1
    ∷ info (codes "XADD") (negsuc 4) plain 1
    ∷ info (codes "XREAD") (negsuc 3) reads 0
    ∷ info (codes "XRANGE") (negsuc 3) reads 1
    ∷ info (codes "XREVRANGE") (negsuc 3) reads 1
    ∷ info (codes "XLEN") (pos 2) reads 1
    ∷ info (codes "XGROUP") (negsuc 1) plain 2
    ∷ info (codes "XREADGROUP") (negsuc 6) plain 0
    ∷ info (codes "XACK") (negsuc 3) plain 1
    ∷ info (codes "SETBIT") (pos 4) plain 1
    ∷ info (codes "GETBIT") (pos 3) reads 1
    ∷ info (codes "BITCOUNT") (negsuc 1) reads 1
    ∷ info (codes "BITPOS") (negsuc 2) reads 1
    ∷ info (codes "GEOADD") (negsuc 4) plain 1
    ∷ info (codes "GEODIST") (negsuc 3) reads 1
    ∷ info (codes "GEORADIUS") (negsuc 5) reads 1
    ∷ info (codes "GEOPOS") (negsuc 1) reads 1
    ∷ info (codes "GEOSEARCH") (negsuc 6) reads 1
    ∷ info (codes "VADD") (negsuc 3) durable 1
    ∷ info (codes "VADD_BATCH") (negsuc 3) durable 1
    ∷ info (codes "VADDBIN") (pos 4) durable 1
    ∷ info (codes "VMIGRATE") (negsuc 2) durable 2
    ∷ info (codes "VDEL") (negsuc 2) durable 1
    ∷ info (codes "VCOMPACT") (negsuc 1) durable_admin 1
    ∷ info (codes "VSEARCH") (negsuc 3) reads 1
    ∷ info (codes "VSIM") (negsuc 3) reads 1
    ∷ info (codes "VFUSE") (negsuc 7) reads 1
    ∷ info (codes "PUBLISH") (pos 3) plain 0
    ∷ info (codes "SUBSCRIBE") (negsuc 1) plain 0
    ∷ info (codes "UNSUBSCRIBE") (negsuc 0) plain 0
    ∷ info (codes "PSUBSCRIBE") (negsuc 1) plain 0
    ∷ info (codes "MULTI") (pos 1) plain 0
    ∷ info (codes "EXEC") (pos 1) plain 0
    ∷ info (codes "DISCARD") (pos 1) plain 0
    ∷ info (codes "WATCH") (negsuc 1) reads 1
    ∷ info (codes "UNWATCH") (pos 1) plain 0
    ∷ info (codes "PING") (negsuc 0) reads 0
    ∷ info (codes "ECHO") (pos 2) reads 0
    ∷ info (codes "QUIT") (pos 1) durable 0
    ∷ info (codes "AUTH") (negsuc 1) durable 0
    ∷ info (codes "SELECT") (pos 2) durable 0
    ∷ info (codes "DBSIZE") (pos 1) reads 0
    ∷ info (codes "FLUSHDB") (negsuc 0) admin 0
    ∷ info (codes "FLUSHALL") (negsuc 0) admin 0
    ∷ info (codes "INFO") (negsuc 0) reads 0
    ∷ info (codes "HELLO") (negsuc 0) reads 0
    ∷ info (codes "CONFIG") (negsuc 1) admin 0
    ∷ info (codes "DEBUG") (negsuc 1) admin 0
    ∷ info (codes "SAVE") (pos 1) admin 0
    ∷ info (codes "BGSAVE") (negsuc 0) admin 0
    ∷ info (codes "CLUSTER") (negsuc 1) admin 0
    ∷ info (codes "ACL") (negsuc 1) admin 0
    ∷ info (codes "COMMAND") (negsuc 0) reads 0
    ∷ []

-- `Lookup`
unfoldable pub lookup_info : Bytes → Option CommandInfo
lookup_info name = lookup (to_upper name) registry

-- The test of a field of what is registered; false for an unknown command.
unfoldable pub passes : (CommandInfo → Bool) → Option CommandInfo → Bool
passes test none = false
passes test (some i) = test i

unfoldable pub registered : (CommandInfo → Bool) → Bytes → Bool
unfolding passes
registered test name = passes test (lookup_info name)

unfoldable pub supported_in_durable_v1 : Bytes → Bool
supported_in_durable_v1 name = registered (λ i. i.read_only || i.durable_v1) name

unfoldable pub lookup_must_read_only : Bytes → Bool
lookup_must_read_only name = registered (λ i. i.read_only) name

abbrev pub frequent : List Bytes
frequent =
    codes "SET"
    ∷ codes "SETEX"
    ∷ codes "GET"
    ∷ codes "MSET"
    ∷ codes "MGET"
    ∷ codes "INCR"
    ∷ codes "INCRBY"
    ∷ codes "DECR"
    ∷ codes "DECRBY"
    ∷ codes "HSET"
    ∷ codes "HGET"
    ∷ codes "HMSET"
    ∷ codes "HMGET"
    ∷ codes "HDEL"
    ∷ codes "VADD"
    ∷ codes "VADD_BATCH"
    ∷ codes "VSEARCH"
    ∷ codes "VSIM"
    ∷ codes "VFUSE"
    ∷ []

unfoldable pub should_audit : Bytes → Bool
should_audit name = not (contains frequent (to_upper name))

-- Every other argument, from the first.
unfoldable pub evens : List Bytes → List Bytes
evens [] = []
evens (k ∷ []) = k ∷ []
evens (k ∷ v ∷ args) = k ∷ evens args

unfoldable pub key_at : Option CommandInfo → Command → List Bytes
key_at none cmd = []
key_at (some i) cmd = elim i.key_index [
  | zero ↦ []
  | suc n ↦ if leb (suc n) (num_args cmd) then arg cmd n ∷ [] else []
]

unfoldable pub affected_keys : Command → List Bytes
unfolding evens key_at
affected_keys cmd =
    let name = normalized cmd in
    if eqb name (codes "DEL") || (eqb name (codes "EXISTS") || eqb name (codes "MGET"))
    then cmd.args
    else if eqb name (codes "MSET")
    then evens cmd.args
    else if eqb name (codes "RENAME") && leb 2 (num_args cmd)
    then arg cmd 0 ∷ arg cmd 1 ∷ []
    else key_at (lookup_info name) cmd
