-- ===== src/Security/Acl.antt =====
-- internal/auth: users, what they may run and which keys and channels they may name. Hash is the hex text of
-- SHA-256, a parameter.
pub mod Enforcer
pub mod Keys
pub mod Prepared
pub mod Gaps
pub mod Stores
pub mod Untouched
use dbx_database_extreme.Base.{
  ℕ, ◌+◌, ◌/◌, ◌%◌, Bool, true, false, ◌&&◌, ◌||◌, not, Bytes, Option, none, some, List, [], ◌∷◌,
  map, Dict, lookup, insert, erase, is_some, length, eqb, ◌==◌, take, codes, if◌then◌else◌,
}
use dbx_database_extreme.Engine.Strings.SetArgs.{to_upper}
use dbx_database_extreme.Engine.Kv.Expiry.{contains}

abbrev pub perm_read : ℕ
perm_read = 1

abbrev pub perm_write : ℕ
perm_write = 2

abbrev pub perm_admin : ℕ
perm_admin = 4

abbrev pub perm_pub_sub : ℕ
perm_pub_sub = 8

abbrev pub perm_all : ℕ
perm_all = 15

pub record User : Type 0 where
  pub name : Bytes
  pub password_hash : Bytes
  pub enabled : Bool
  pub permissions : ℕ
  pub allowed_keys : List Bytes
  pub allowed_channels : List Bytes
  pub no_pass : Bool

abbrev pub AclStore : Type 0
AclStore = Dict User

abbrev pub everything : List Bytes
everything = codes "*" ∷ []

unfoldable pub new_acl_store : AclStore
new_acl_store =
    (
      codes "default",
      record {
        name = codes "default";
        password_hash = [];
        enabled = true;
        permissions = perm_all;
        allowed_keys = everything;
        allowed_channels = everything;
        no_pass = true;
      },
    )
    ∷ []

unfoldable pub disable_default : AclStore → AclStore
disable_default a = erase (codes "default") a

unfoldable pub get_user : AclStore → Bytes → Option User
get_user a name = lookup name a

unfoldable pub add_user : AclStore → User → AclStore
add_user a u = insert u.name u a

unfoldable pub delete_user : AclStore → Bytes → Bool × AclStore
delete_user a name = if is_some (lookup name a) then (true, erase name a) else (false, a)

unfoldable pub list_users : AclStore → List Bytes
list_users a = map (λ (p : Bytes × User). p.0) a

-- A bit of the permissions.
unfoldable pub has_perm : User → ℕ → Bool
has_perm user perm = (user.permissions / perm) % 2 == 1

unfoldable pub admin_commands : List Bytes
admin_commands =
    codes "CONFIG"
    ∷ codes "DEBUG"
    ∷ codes "FLUSHALL"
    ∷ codes "FLUSHDB"
    ∷ codes "SAVE"
    ∷ codes "BGSAVE"
    ∷ codes "CLUSTER"
    ∷ codes "ACL"
    ∷ codes "REPLICAOF"
    ∷ codes "SLAVEOF"
    ∷ codes "SHUTDOWN"
    ∷ codes "VCOMPACT"
    ∷ []

unfoldable pub write_commands : List Bytes
write_commands =
    codes "SET"
    ∷ codes "SETEX"
    ∷ codes "DEL"
    ∷ codes "EXPIRE"
    ∷ codes "RENAME"
    ∷ codes "INCR"
    ∷ codes "DECR"
    ∷ codes "INCRBY"
    ∷ codes "DECRBY"
    ∷ codes "APPEND"
    ∷ codes "SETRANGE"
    ∷ codes "MSET"
    ∷ codes "SETNX"
    ∷ codes "GETSET"
    ∷ codes "HSET"
    ∷ codes "HDEL"
    ∷ codes "HMSET"
    ∷ codes "HINCRBY"
    ∷ codes "LPUSH"
    ∷ codes "RPUSH"
    ∷ codes "LPOP"
    ∷ codes "RPOP"
    ∷ codes "LSET"
    ∷ codes "LREM"
    ∷ codes "LTRIM"
    ∷ codes "SADD"
    ∷ codes "SREM"
    ∷ codes "SPOP"
    ∷ codes "ZADD"
    ∷ codes "ZREM"
    ∷ codes "ZINCRBY"
    ∷ codes "XADD"
    ∷ codes "XGROUP"
    ∷ codes "XACK"
    ∷ codes "SETBIT"
    ∷ codes "GEOADD"
    ∷ codes "PERSIST"
    ∷ codes "MULTI"
    ∷ codes "EXEC"
    ∷ codes "DISCARD"
    ∷ codes "PUBLISH"
    ∷ codes "VADD"
    ∷ codes "VADD_BATCH"
    ∷ codes "VADDBIN"
    ∷ codes "VDEL"
    ∷ []

unfoldable pub can_execute : User → Bytes → Bool
unfolding has_perm admin_commands write_commands
can_execute user cmd_name =
    if not user.enabled
    then false
    else if contains admin_commands (to_upper cmd_name)
    then has_perm user perm_admin
    else if contains write_commands (to_upper cmd_name)
    then has_perm user perm_write
    else has_perm user perm_read

-- `strings.TrimSuffix(pattern, "*")`.
unfoldable pub trim_star : Bytes → Bytes
trim_star [] = []
trim_star (c ∷ []) = if c == b'*' then [] else c ∷ []
trim_star (c ∷ d ∷ s) = c ∷ trim_star (d ∷ s)

unfoldable pub has_prefix : Bytes → Bytes → Bool
has_prefix s prefix = eqb (take (length prefix) s) prefix

unfoldable pub match_key_pattern : Bytes → Bytes → Bool
unfolding trim_star has_prefix
match_key_pattern pattern key =
    if eqb pattern (codes "*") then true else has_prefix key (trim_star pattern)

-- The loops over the patterns.
unfoldable pub any_pattern : List Bytes → Bytes → Bool
unfolding match_key_pattern
any_pattern [] key = false
any_pattern (pattern ∷ patterns) key =
    let rest = any_pattern patterns key in
    if eqb pattern (codes "*") || match_key_pattern pattern key then true else rest

unfoldable pub can_access_key : User → Bytes → Bool
unfolding any_pattern
can_access_key user key = if not user.enabled then false else any_pattern user.allowed_keys key

unfoldable pub can_access_channel : User → Bytes → Bool
unfolding any_pattern
can_access_channel user channel = any_pattern user.allowed_channels channel

unfoldable pub can_subscribe : User → Bytes → Bool
unfolding has_perm can_access_channel
can_subscribe user channel =
    if not (has_perm user perm_pub_sub) && not (has_perm user perm_read)
    then false
    else can_access_channel user channel

unfoldable pub can_publish : User → Bytes → Bool
unfolding has_perm can_access_channel
can_publish user channel =
    if not (has_perm user perm_write) then false else can_access_channel user channel

-- `ReplaceUsers`; a nil user is none.
unfoldable pub install_users : List (Option User) → AclStore → AclStore
install_users [] a = a
install_users (none ∷ users) a = install_users users a
install_users (some u ∷ users) a =
    install_users users (if eqb u.name [] then a else insert u.name u a)

unfoldable pub replace_users : List (Option User) → AclStore
unfolding install_users
replace_users users = install_users users []

unfoldable pub snapshot_users : AclStore → List (Option User)
snapshot_users [] = []
snapshot_users ((name, u) ∷ a) = some u ∷ snapshot_users a

pub record Role : Type 0 where
  pub name : Bytes
  pub permissions : ℕ
  pub allowed_keys : List Bytes
  pub allowed_channels : List Bytes

unfoldable pub apply_role : User → Role → User
apply_role user role = record {
  name = user.name;
  password_hash = user.password_hash;
  enabled = user.enabled;
  permissions = role.permissions;
  allowed_keys = role.allowed_keys;
  allowed_channels = role.allowed_channels;
  no_pass = user.no_pass;
}

pub data AuthError : Type 0 where
  disabled wrong_pass : AuthError

module _ (hash : Bytes → Bytes) where
  unfoldable pub create_user : Bytes → Bytes → ℕ → User
  create_user name password perms = record {
    name = name;
    password_hash = if eqb password [] then [] else hash password;
    enabled = true;
    permissions = perms;
    allowed_keys = everything;
    allowed_channels = everything;
    no_pass = eqb password [];
  }

  unfoldable pub authenticate : User → Bytes → Option AuthError
  authenticate user password =
      if not user.enabled
      then some disabled
      else if user.no_pass
      then none
      else if eqb (hash password) user.password_hash
      then none
      else some wrong_pass

  unfoldable pub set_default_password : AclStore → Bytes → Bytes → AclStore
  unfolding add_user create_user
  set_default_password a name password = add_user a (create_user name password perm_all)
