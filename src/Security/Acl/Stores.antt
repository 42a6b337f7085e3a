-- ===== src/Security/Acl/Stores.antt =====
-- What the commands on hashes, lists and sets can reach that the enforcer lets through.
use dbx_database_extreme.Base.{
  ℕ, ◌≡◌, refl, subst, ◌∙◌, ◌≢◌, Bool, false, Bytes, none, some, List, [], ◌∷◌, All, eqb, ℤ,
}
use dbx_database_extreme.Engine.Kv.Shards.{IsSharded}
use dbx_database_extreme.Persistence.Wal.Encode.{WalEffect}
use dbx_database_extreme.Query.Command.{Command, normalized, affected_keys}
use dbx_database_extreme.Query.Verb.{verb_of, verbs, on_other, or_other}
use dbx_database_extreme.Query.Command.{arg, key_at, lookup_info, registry}
use dbx_database_extreme.Query.Effects.{deletion}
use dbx_database_extreme.Query.Registered.{lookup-All}
use dbx_database_extreme.Engine.Strings.SetArgs.{to_upper}
use dbx_database_extreme.Engine.Kv.{find}
use dbx_database_extreme.Query.Stores.{StoreVerb, store_verbs, dispatch_stores, dispatch_found}
use dbx_database_extreme.Query.Stores.Untouched.{dispatch_store-IsKept}
use dbx_database_extreme.Security.Acl.Keys.{affected_by, first_key}
use dbx_database_extreme.Query.Executor.{Executor, Log, Outcome}
use dbx_database_extreme.Query.Dispatch.{dispatch, dispatch_verb}
use dbx_database_extreme.Security.Acl.{User, can_access_key}
use dbx_database_extreme.Security.Acl.Enforcer.{enforce, enforce_keys}
use dbx_database_extreme.Security.Acl.Prepared.{first_key-arg}
use dbx_database_extreme.Base.{lookup, ap}
use dbx_database_extreme.Security.Acl.Untouched.{enforce-keys, elsewhere}

-- The name is no command on keys or strings, and it names the first argument.
abbrev IsStoreName : Bytes → StoreVerb → Type 0
IsStoreName name v =
    (lookup name verbs ≡ none) × ((cmd : Command) → affected_by name cmd ≡ first_key cmd)

store_verbs-IsStoreName : All (λ (p : Bytes × StoreVerb). IsStoreName p.0 p.1) store_verbs
unfolding store_verbs verbs key_at lookup_info registry lookup eqb to_upper
store_verbs-IsStoreName = (
  (refl, λ cmd. refl),
  (
    (refl, λ cmd. refl),
    (
      (refl, λ cmd. refl),
      (
        (refl, λ cmd. refl),
        (
          (refl, λ cmd. refl),
          (
            (refl, λ cmd. refl),
            (
              (refl, λ cmd. refl),
              (
                (refl, λ cmd. refl),
                (
                  (refl, λ cmd. refl),
                  (
                    (refl, λ cmd. refl),
                    (
                      (refl, λ cmd. refl),
                      (
                        (refl, λ cmd. refl),
                        (
                          (refl, λ cmd. refl),
                          (
                            (refl, λ cmd. refl),
                            (
                              (refl, λ cmd. refl),
                              (
                                (refl, λ cmd. refl),
                                (
                                  (refl, λ cmd. refl),
                                  (
                                    (refl, λ cmd. refl),
                                    (
                                      (refl, λ cmd. refl),
                                      (
                                        (refl, λ cmd. refl),
                                        (
                                          (refl, λ cmd. refl),
                                          (
                                            (refl, λ cmd. refl),
                                            (
                                              (refl, λ cmd. refl),
                                              ((refl, λ cmd. refl), ((refl, λ cmd. refl), tt)),
                                            ),
                                          ),
                                        ),
                                      ),
                                    ),
                                  ),
                                ),
                              ),
                            ),
                          ),
                        ),
                      ),
                    ),
                  ),
                ),
              ),
            ),
          ),
        ),
      ),
    ),
  ),
)

store_verb-names :
    (cmd : Command) (v : StoreVerb)
    → lookup (normalized cmd) store_verbs ≡ some v
    → (verb_of cmd ≡ on_other) × (affected_keys cmd ≡ first_key cmd)
unfolding verb_of or_other affected_keys
store_verb-names cmd v h =
    let (none_there, named) =
      lookup-All IsStoreName store_verbs (normalized cmd) v store_verbs-IsStoreName h in
    (rw none_there refl, named cmd)

first_arg_elsewhere :
    (user : User) (cmd : Command) (j : Bytes)
    → enforce_keys user (first_key cmd) ≡ none
    → can_access_key user j ≡ false
    → j ≢ []
    → eqb (arg cmd 0) j ≡ false
unfolding arg deletion
first_arg_elsewhere user cmd j p d n =
    (elsewhere user (first_key cmd) (deletion (arg cmd 0) ∷ []) j p d n (first_key-arg cmd, tt)).0

-- A command on a hash, a list or a set, or GETRANGE, that the enforcer lets a user run leaves every key that
-- the user may not name (the empty one apart) as it is found, on every well-formed store and at every time.
pub dispatch_stores_untouched :
    (accepts : Log → List WalEffect → Bool) (shuffle : List Bytes → List Bytes)
    (rest : Executor → Command → (ℕ → ℤ) → Outcome) (e : Executor) (cmd : Command) (clock : ℕ → ℤ)
    (user : User) (v : StoreVerb) (j : Bytes)
    → IsSharded e.kv
    → lookup (normalized cmd) store_verbs ≡ some v
    → enforce (some user) cmd ≡ none
    → can_access_key user j ≡ false
    → j ≢ []
    → find (dispatch accepts (dispatch_stores shuffle rest) e cmd clock).1.kv j ≡ find e.kv j
unfolding dispatch dispatch_stores
dispatch_stores_untouched accepts shuffle rest e cmd clock user v j h known p d ne =
    let (other, named) = store_verb-names cmd v known in
    let allowed : enforce_keys user (first_key cmd) ≡ none =
      subst (λ ks. enforce_keys user ks ≡ none) named (enforce-keys user cmd p) in
    ap (λ w. find (dispatch_verb accepts (dispatch_stores shuffle rest) w e cmd clock).1.kv j) other
    ∙ ap (λ o. find (dispatch_found shuffle rest o e cmd clock).1.kv j) known
    ∙ dispatch_store-IsKept e cmd clock j h (first_arg_elsewhere user cmd j allowed d ne) shuffle v
