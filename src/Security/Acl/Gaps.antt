-- ===== src/Security/Acl/Gaps.antt =====
-- What the rules let through.
use dbx_database_extreme.Base.{
  ℕ, suc, ◌≡◌, refl, sym, ap, ◌∙◌, ◌↔◌, Bool, true, false, ◌&&◌, ◌||◌, not, Bytes, some, List, [],
  ◌∷◌, ◌++◌, All, ◌⊎◌, inl, inr, codes, eqb, eqb_refl, eqb_sound, leb, take, drop, length, arith,
  take-append_exact, take-append-drop, if◌then◌else◌, Bool-cases, lookup, Dict,
}
use dbx_database_extreme.Engine.Kv.Expiry.{contains}
use dbx_database_extreme.Engine.Strings.SetArgs.{to_upper}
use dbx_database_extreme.Query.Command.{
  CommandInfo, normalized, affected_keys, key_at, lookup_info, registry, num_args, arg, info,
}
use dbx_database_extreme.Query.Registered.{lookup-All}
use dbx_database_extreme.Security.Acl.{
  User, perm_read, perm_write, perm_admin, has_perm, can_execute, match_key_pattern, trim_star,
  has_prefix, admin_commands, write_commands,
}
use dbx_database_extreme.Security.Acl.Enforcer.{enforce, enforce_keys, no_permission}

-- A pattern that does not end in a star allows exactly the keys that begin with it, not only the key itself.
match_key_pattern-prefix :
    (pattern key : Bytes)
    → trim_star pattern ≡ pattern
    → eqb pattern (codes "*") ≡ false
    → (match_key_pattern pattern key ≡ true) ↔ ((rest : Bytes) × (key ≡ pattern ++ rest))
unfolding match_key_pattern has_prefix
match_key_pattern-prefix pattern key h s = (
  λ m.
      let begins : eqb (take (length pattern) key) pattern ≡ true = rw (s, h) at m in
      (
        drop (length pattern) key,
        sym (take-append-drop (length pattern) key)
            ∙ ap (λ x. x ++ drop (length pattern) key)
                (eqb_sound (take (length pattern) key) pattern begins),
      ),
  λ (rest, e).
      rw (s, h, e, take-append_exact pattern rest (length pattern) refl) (eqb_refl pattern),
)

first_key_only :
    (name k : Bytes) (rest : List Bytes) (client : ℕ)
    → (name ≡ codes "SINTER") ⊎ ((name ≡ codes "SUNION") ⊎ (name ≡ codes "SDIFF"))
    → affected_keys (record { name = name; args = k ∷ rest; client_id = client }) ≡ k ∷ []
unfolding affected_keys normalized key_at lookup_info registry lookup eqb to_upper num_args arg
first_key_only name k rest client h =
    let one : leb 1 (suc (length rest)) ≡ true = ground arith in
    elim h [
      | inl e ↦ rw e (rw one refl)
      | inr f ↦ elim f [ inl e ↦ rw e (rw one refl) | inr e ↦ rw e (rw one refl) ]
    ]

-- Only the first key of SINTER, SUNION and SDIFF is looked at: the answer is the same whatever keys follow.
enforce_first_key :
    (user : User) (name k : Bytes) (rest : List Bytes) (client : ℕ)
    → (name ≡ codes "SINTER") ⊎ ((name ≡ codes "SUNION") ⊎ (name ≡ codes "SDIFF"))
    → enforce (some user) (record { name = name; args = k ∷ rest; client_id = client })
      ≡ enforce (some user) (record { name = name; args = k ∷ []; client_id = client })
unfolding enforce normalized
enforce_first_key user name k rest client h =
    ap
      (λ ks.
        if not (can_execute user (to_upper name))
        then some (no_permission name)
        else enforce_keys user ks)
      (first_key_only name k rest client h ∙ sym (first_key_only name k [] client h))

abbrev pub unguarded : List Bytes
unguarded =
    codes "VMIGRATE"
    ∷ codes "XREADGROUP"
    ∷ codes "SUBSCRIBE"
    ∷ codes "UNSUBSCRIBE"
    ∷ codes "PSUBSCRIBE"
    ∷ codes "UNWATCH"
    ∷ codes "QUIT"
    ∷ codes "AUTH"
    ∷ codes "SELECT"
    ∷ []

-- Neither list of the ACL has the command, so that the permission to read is enough.
abbrev pub needs_read : Bytes → Bool
needs_read name = not (contains admin_commands name) && not (contains write_commands name)

abbrev is_as_listed : Bytes → Bool
is_as_listed name =
    if needs_read name then contains unguarded name else not (contains unguarded name)

abbrev all_as_listed : Dict CommandInfo → Bool
all_as_listed [] = true
all_as_listed ((name, i) ∷ m) =
    let rest = all_as_listed m in if i.read_only || is_as_listed name then rest else false

registry-as_listed : all_as_listed registry ≡ true
unfolding registry info admin_commands write_commands eqb
registry-as_listed = refl

IsListed : Bytes → CommandInfo → Type 0
IsListed name i = i.read_only || is_as_listed name ≡ true

All-IsListed :
    (m : Dict CommandInfo)
    → all_as_listed m ≡ true
    → All (λ (p : Bytes × CommandInfo). IsListed p.0 p.1) m
unfolding IsListed
All-IsListed [] h = tt
All-IsListed ((name, i) ∷ m) h = elim (Bool-cases (i.read_only || is_as_listed name)) [
  | inl e ↦ (e, All-IsListed m (rw e at h))
  | inr e ↦ absurd (let k = rw e at h in cc)
]

listed_only : (a b : Bool) → (if a then b else not b) ≡ true → a ≡ b
listed_only true b h = sym h
listed_only false true h = absurd (cc)
listed_only false false h = refl

needs_read-unguarded :
    (name : Bytes) (i : CommandInfo)
    → lookup_info name ≡ some i
    → i.read_only ≡ false
    → needs_read (to_upper name) ≡ contains unguarded (to_upper name)
unfolding lookup_info IsListed
needs_read-unguarded name i h r =
    let p : IsListed (to_upper name) i =
      lookup-All IsListed registry (to_upper name) i (All-IsListed registry registry-as_listed) h in
    listed_only (needs_read (to_upper name)) (contains unguarded (to_upper name)) (rw r at p)

-- An enabled user with no permission but to read.
pub record IsReader (user : User) : Type 0 where
  pub is_enabled : user.enabled ≡ true
  pub reads_keys : has_perm user perm_read ≡ true
  pub no_writes : has_perm user perm_write ≡ false
  pub no_admin : has_perm user perm_admin ≡ false

chosen : (a w : Bool) → (if a then false else if w then false else true) ≡ (not a && not w)
chosen true w = refl
chosen false true = refl
chosen false false = refl

can_execute-needs_read :
    (user : User) (name : Bytes)
    → IsReader user
    → can_execute user name ≡ needs_read (to_upper name)
unfolding can_execute
can_execute-needs_read user name r =
    rw (r.is_enabled, r.reads_keys, r.no_writes, r.no_admin)
      (chosen (contains admin_commands (to_upper name)) (contains write_commands (to_upper name)))

-- Of the registered commands that do not only read, a user with no permission but to read may run exactly
-- VMIGRATE, which writes vectors, XREADGROUP, UNWATCH, and those on the connection and its subscriptions.
pub reader-unguarded :
    (user : User) (name : Bytes) (i : CommandInfo)
    → IsReader user
    → lookup_info name ≡ some i
    → i.read_only ≡ false
    → can_execute user name ≡ contains unguarded (to_upper name)
reader-unguarded user name i r h o =
    can_execute-needs_read user name r ∙ needs_read-unguarded name i h o
