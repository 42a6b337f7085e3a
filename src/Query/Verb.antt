-- ===== src/Query/Verb.antt =====
-- The `switch name` of `prepareDurableEffects` and `Dispatch` in internal/query/executor.go: the cases
-- on keys and strings.
use dbx_database_extreme.Base.{Option, none, some, [], ◌∷◌, Dict, lookup, codes}
use dbx_database_extreme.Query.Command.{Command, normalized}

pub data Verb : Type 0 where
  on_del on_exists on_expire on_ttl on_persist on_type on_rename : Verb
  on_get on_set on_setex on_mget on_mset on_incr on_decr on_incrby on_decrby : Verb
  on_append on_strlen on_setnx on_getset on_keys on_scan on_dbsize on_other : Verb

unfoldable pub verbs : Dict Verb
verbs =
    (codes "DEL", on_del)
    ∷ (codes "EXISTS", on_exists)
    ∷ (codes "EXPIRE", on_expire)
    ∷ (codes "TTL", on_ttl)
    ∷ (codes "PERSIST", on_persist)
    ∷ (codes "TYPE", on_type)
    ∷ (codes "RENAME", on_rename)
    ∷ (codes "GET", on_get)
    ∷ (codes "SET", on_set)
    ∷ (codes "SETEX", on_setex)
    ∷ (codes "MGET", on_mget)
    ∷ (codes "MSET", on_mset)
    ∷ (codes "INCR", on_incr)
    ∷ (codes "DECR", on_decr)
    ∷ (codes "INCRBY", on_incrby)
    ∷ (codes "DECRBY", on_decrby)
    ∷ (codes "APPEND", on_append)
    ∷ (codes "STRLEN", on_strlen)
    ∷ (codes "SETNX", on_setnx)
    ∷ (codes "GETSET", on_getset)
    ∷ (codes "KEYS", on_keys)
    ∷ (codes "SCAN", on_scan)
    ∷ (codes "DBSIZE", on_dbsize)
    ∷ []

unfoldable pub or_other : Option Verb → Verb
or_other none = on_other
or_other (some v) = v

unfoldable pub verb_of : Command → Verb
unfolding or_other
verb_of cmd = or_other (lookup (normalized cmd) verbs)
