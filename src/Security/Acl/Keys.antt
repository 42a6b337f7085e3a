-- ===== src/Security/Acl/Keys.antt =====
-- The keys that `AffectedKeys` names, for each command that is prepared.
use dbx_database_extreme.Base.{
  ◌≡◌, refl, true, ◌&&◌, ◌||◌, Bytes, Option, none, some, List, [], ◌∷◌, All, codes, eqb, leb,
  lookup, if◌then◌else◌,
}
use dbx_database_extreme.Engine.Strings.SetArgs.{to_upper}
use dbx_database_extreme.Query.Command.{
  Command, arg, num_args, normalized, affected_keys, evens, key_at, lookup_info, registry,
}
use dbx_database_extreme.Query.Verb.{
  Verb, on_del, on_expire, on_persist, on_rename, on_set, on_setex, on_mset, on_incr, on_decr,
  on_incrby, on_decrby, on_append, on_setnx, on_getset, verb_of, verbs, or_other,
}
use dbx_database_extreme.Query.Registered.{lookup-All}

abbrev pub affected_by : Bytes → Command → List Bytes
affected_by name cmd =
    if eqb name (codes "DEL") || (eqb name (codes "EXISTS") || eqb name (codes "MGET"))
    then cmd.args
    else if eqb name (codes "MSET")
    then evens cmd.args
    else if eqb name (codes "RENAME") && leb 2 (num_args cmd)
    then arg cmd 0 ∷ arg cmd 1 ∷ []
    else key_at (lookup_info name) cmd

abbrev pub first_key : Command → List Bytes
first_key cmd = if leb 1 (num_args cmd) then arg cmd 0 ∷ [] else []

-- Which keys a prepared command has to name.
abbrev pub NamesKeys : Verb → Command → List Bytes → Type 0
NamesKeys v cmd ks = elim v [
  | on_del ↦ ks ≡ cmd.args
  | on_mset ↦ ks ≡ evens cmd.args
  | on_rename ↦ leb 2 (num_args cmd) ≡ true → ks ≡ arg cmd 0 ∷ arg cmd 1 ∷ []
  | on_set ↦ ks ≡ first_key cmd
  | on_setex ↦ ks ≡ first_key cmd
  | on_setnx ↦ ks ≡ first_key cmd
  | on_getset ↦ ks ≡ first_key cmd
  | on_expire ↦ ks ≡ first_key cmd
  | on_persist ↦ ks ≡ first_key cmd
  | on_incr ↦ ks ≡ first_key cmd
  | on_decr ↦ ks ≡ first_key cmd
  | on_incrby ↦ ks ≡ first_key cmd
  | on_decrby ↦ ks ≡ first_key cmd
  | on_append ↦ ks ≡ first_key cmd
  | _ ↦ Unit {0}
]

verbs-NamesKeys :
    All (λ (p : Bytes × Verb). (cmd : Command) → NamesKeys p.1 cmd (affected_by p.0 cmd)) verbs
unfolding verbs key_at lookup_info registry lookup eqb to_upper
verbs-NamesKeys = (
  λ cmd. refl,
  (
    λ cmd. tt,
    (
      λ cmd. refl,
      (
        λ cmd. tt,
        (
          λ cmd. refl,
          (
            λ cmd. tt,
            (
              λ cmd e. rw e refl,
              (
                λ cmd. tt,
                (
                  λ cmd. refl,
                  (
                    λ cmd. refl,
                    (
                      λ cmd. tt,
                      (
                        λ cmd. refl,
                        (
                          λ cmd. refl,
                          (
                            λ cmd. refl,
                            (
                              λ cmd. refl,
                              (
                                λ cmd. refl,
                                (
                                  λ cmd. refl,
                                  (
                                    λ cmd. tt,
                                    (
                                      λ cmd. refl,
                                      (λ cmd. refl, (λ cmd. tt, (λ cmd. tt, (λ cmd. tt, tt)))),
                                    ),
                                  ),
                                ),
                              ),
                            ),
                          ),
                        ),
                      ),
                    ),
                  ),
                ),
              ),
            ),
          ),
        ),
      ),
    ),
  ),
)

named_or_other :
    (name : Bytes) (o : Option Verb) (cmd : Command)
    → lookup name verbs ≡ o
    → NamesKeys (or_other o) cmd (affected_by name cmd)
unfolding or_other
named_or_other name none cmd h = tt
named_or_other name (some v) cmd h =
    lookup-All (λ k w. (c : Command) → NamesKeys w c (affected_by k c)) verbs name v verbs-NamesKeys
      h cmd

pub verb_of-NamesKeys : (cmd : Command) → NamesKeys (verb_of cmd) cmd (affected_keys cmd)
unfolding verb_of affected_keys
verb_of-NamesKeys cmd = named_or_other (normalized cmd) (lookup (normalized cmd) verbs) cmd refl
