-- ===== src/Security/Acl/Enforcer.antt =====
-- internal/security/acl_enforcer.go.
use dbx_database_extreme.Base.{
  ◌&&◌, not, Bytes, Option, none, some, List, [], ◌∷◌, eqb, if◌then◌else◌,
}
use dbx_database_extreme.Query.Command.{Command, normalized, affected_keys}
use dbx_database_extreme.Security.Acl.{User, can_execute, can_access_key}

pub data Refusal : Type 0 where
  no_auth : Refusal
  no_permission : Bytes → Refusal
  no_access : Bytes → Refusal

-- The loop over the keys.
unfoldable pub enforce_keys : User → List Bytes → Option Refusal
enforce_keys user [] = none
enforce_keys user (key ∷ keys) =
    let rest = enforce_keys user keys in
    if not (eqb key []) && not (can_access_key user key) then some (no_access key) else rest

-- none is nil, for the user and for the error.
unfoldable pub enforce : Option User → Command → Option Refusal
unfolding enforce_keys
enforce none cmd = some no_auth
enforce (some user) cmd =
    if not (can_execute user (normalized cmd))
    then some (no_permission cmd.name)
    else enforce_keys user (affected_keys cmd)
