-- ===== src/Query/Effects.antt =====
-- `prepareDurableEffects` and `effectsFitQuota` of internal/query/executor.go: the effects that the log
-- gets before a command is executed.
pub mod Keyed
use dbx_database_extreme.Base.{
  ℕ, suc, ◌+◌, Bool, ◌||◌, not, Bytes, Option, none, some, List, [], ◌∷◌, ◌++◌, Dict, insert, drop,
  eqb, length, ltb, ◌%◌, ◌==◌, ℤ, pos, negsuc, ◌+ℤ◌, ◌-ℤ◌, ltb_ℤ, leb_ℤ, eqb_ℤ, wrap64, scale,
  if◌then◌else◌,
}
use dbx_database_extreme.Util.Decimal.{parse_int, format_int}
use dbx_database_extreme.Engine.Entry.{Entry, bytes_value, type_string}
use dbx_database_extreme.Engine.Kv.{KvStore, second, get, exists_key}
use dbx_database_extreme.Engine.Typed.{Answer, done, failed, panicked}
use dbx_database_extreme.Engine.Strings.SetArgs.{SetArgs, parse_set_args}
use dbx_database_extreme.Persistence.Wal.Encode.{
  WalEffect, record_set, record_delete, record_expire,
}
use dbx_database_extreme.Query.Command.{Command, arg, num_args}
use dbx_database_extreme.Query.Verb.{
  Verb, on_del, on_expire, on_persist, on_rename, on_set, on_setex, on_mset, on_incr, on_decr,
  on_incrby, on_decrby, on_append, on_setnx, on_getset,
}

-- What `stringState` returns: there is no key, it holds another type, or bytes with a deadline.
pub data StringState : Type 0 where
  absent : StringState
  foreign : StringState
  holding : Bytes → ℤ → StringState

unfoldable pub state_of : Option Entry → StringState
state_of none = absent
state_of (some e) =
    if eqb e.typ type_string
    then elim e.value [ bytes_value b ↦ holding b e.expires_at | _ ↦ foreign ]
    else foreign

unfoldable pub string_state : KvStore → Bytes → ℤ → StringState
unfolding state_of
string_state kv key now = state_of (get kv key now)

unfoldable pub put : Bytes → Bytes → ℤ → WalEffect
put key value expires_at = record {
  typ = record_set;
  key = key;
  value = value;
  expires_at = expires_at;
}

unfoldable pub deletion : Bytes → WalEffect
deletion key = record { typ = record_delete; key = key; value = []; expires_at = pos 0 }

unfoldable pub expiry : Bytes → ℤ → WalEffect
expiry key expires_at = record {
  typ = record_expire;
  key = key;
  value = [];
  expires_at = expires_at;
}

-- `now + sec*int64(time.Second)`
unfoldable pub deadline_at : ℤ → ℤ → ℤ
deadline_at now seconds = wrap64 (now +ℤ wrap64 (scale second seconds))

unfoldable pub set_effect : Bytes → StringState → SetArgs → ℤ → List WalEffect
unfolding put deadline_at
set_effect key foreign a now = []
set_effect key absent a now =
    if a.xx
    then []
    else put key a.value (if ltb_ℤ (pos 0) a.ttl_sec then deadline_at now a.ttl_sec else pos 0) ∷ []
set_effect key (holding b d) a now =
    if a.nx
    then []
    else put key a.value (if ltb_ℤ (pos 0) a.ttl_sec then deadline_at now a.ttl_sec else pos 0) ∷ []

unfoldable pub parsed_set_effect : Bytes → StringState → Answer SetArgs → ℤ → List WalEffect
unfolding set_effect
parsed_set_effect key s (done a) now = set_effect key s a now
parsed_set_effect key s (failed e) now = []
parsed_set_effect key s panicked now = []

unfoldable pub setex_effect : Bytes → Bytes → Option ℤ → ℤ → List WalEffect
unfolding put deadline_at
setex_effect key value none now = []
setex_effect key value (some seconds) now =
    if leb_ℤ seconds (pos 0) then [] else put key value (deadline_at now seconds) ∷ []

unfoldable pub setnx_effect : Bytes → Bytes → StringState → List WalEffect
unfolding put
setnx_effect key value absent = put key value (pos 0) ∷ []
setnx_effect key value foreign = []
setnx_effect key value (holding b d) = []

unfoldable pub getset_effect : Bytes → Bytes → StringState → List WalEffect
unfolding put
getset_effect key value absent = put key value (pos 0) ∷ []
getset_effect key value foreign = []
getset_effect key value (holding b d) = put key value (pos 0) ∷ []

unfoldable pub is_even : ℕ → Bool
is_even n = n % 2 == 0

-- The arguments two by two.
unfoldable pub put_pairs : List Bytes → List WalEffect
unfolding put
put_pairs [] = []
put_pairs (k ∷ []) = []
put_pairs (k ∷ v ∷ args) = put k v (pos 0) ∷ put_pairs args

-- `Exists` reads the clock for each key.
unfoldable pub delete_existing : KvStore → List Bytes → (ℕ → ℤ) → ℕ → List WalEffect
unfolding deletion
delete_existing kv [] clock n = []
delete_existing kv (k ∷ keys) clock n =
    let rest = delete_existing kv keys clock (suc n) in
    if exists_key kv k (clock n) then deletion k ∷ rest else rest

unfoldable pub expire_effect : Bytes → Option ℤ → Bool → ℤ → List WalEffect
unfolding expiry deadline_at
expire_effect key none there now = []
expire_effect key (some seconds) there now =
    if there then expiry key (deadline_at now seconds) ∷ [] else []

unfoldable pub persist_effect : Bytes → Option Entry → List WalEffect
unfolding expiry
persist_effect key none = []
persist_effect key (some e) = if eqb_ℤ e.expires_at (pos 0) then [] else expiry key (pos 0) ∷ []

unfoldable pub rename_effects : Bytes → Bytes → StringState → List WalEffect
unfolding put deletion
rename_effects key new_key absent = []
rename_effects key new_key foreign = []
rename_effects key new_key (holding b d) = put new_key b d ∷ deletion key ∷ []

unfoldable pub sum_effect : Bytes → Option ℤ → Option ℤ → ℤ → List WalEffect
unfolding put
sum_effect key none by d = []
sum_effect key (some current) none d = []
sum_effect key (some current) (some by) d = put key (format_int (wrap64 (current +ℤ by))) d ∷ []

unfoldable pub incr_effect : Bytes → StringState → Option ℤ → List WalEffect
unfolding sum_effect
incr_effect key absent by = sum_effect key (some (pos 0)) by (pos 0)
incr_effect key foreign by = []
incr_effect key (holding b d) by = sum_effect key (parse_int b) by d

-- `-by` of an `int64`.
unfoldable pub negated : Option ℤ → Option ℤ
negated none = none
negated (some by) = some (wrap64 (pos 0 -ℤ by))

unfoldable pub append_effect : Bytes → Bytes → StringState → List WalEffect
unfolding put
append_effect key value absent = put key value (pos 0) ∷ []
append_effect key value foreign = []
append_effect key value (holding b d) = put key (b ++ value) d ∷ []

-- none: the command is not prepared. `clock 0` is the `now` of the function; the other readings are
-- those of `Get` and `Exists`.
unfoldable pub prepare_verb : Verb → KvStore → Command → (ℕ → ℤ) → Option (List WalEffect)
unfolding parsed_set_effect setex_effect setnx_effect getset_effect put_pairs delete_existing
    expire_effect persist_effect rename_effects incr_effect negated append_effect string_state
prepare_verb on_set kv cmd clock = some (
    if ltb (num_args cmd) 2
    then []
    else parsed_set_effect (arg cmd 0) (string_state kv (arg cmd 0) (clock 1))
        (parse_set_args (drop 1 cmd.args)) (clock 0))
prepare_verb on_setex kv cmd clock = some (
    if ltb (num_args cmd) 3
    then []
    else setex_effect (arg cmd 0) (arg cmd 2) (parse_int (arg cmd 1)) (clock 0))
prepare_verb on_setnx kv cmd clock = some (
    if ltb (num_args cmd) 2
    then []
    else setnx_effect (arg cmd 0) (arg cmd 1) (string_state kv (arg cmd 0) (clock 1)))
prepare_verb on_getset kv cmd clock = some (
    if ltb (num_args cmd) 2
    then []
    else getset_effect (arg cmd 0) (arg cmd 1) (string_state kv (arg cmd 0) (clock 1)))
prepare_verb on_mset kv cmd clock =
    some (if ltb (num_args cmd) 2 || not (is_even (num_args cmd)) then [] else put_pairs cmd.args)
prepare_verb on_del kv cmd clock = some (delete_existing kv cmd.args clock 1)
prepare_verb on_expire kv cmd clock = some (
    if ltb (num_args cmd) 2
    then []
    else expire_effect (arg cmd 0) (parse_int (arg cmd 1)) (exists_key kv (arg cmd 0) (clock 1))
        (clock 0))
prepare_verb on_persist kv cmd clock =
    some (persist_effect (arg cmd 0) (get kv (arg cmd 0) (clock 1)))
prepare_verb on_rename kv cmd clock = some (
    if ltb (num_args cmd) 2
    then []
    else rename_effects (arg cmd 0) (arg cmd 1) (string_state kv (arg cmd 0) (clock 1)))
prepare_verb on_incr kv cmd clock =
    some (incr_effect (arg cmd 0) (string_state kv (arg cmd 0) (clock 1)) (some (pos 1)))
prepare_verb on_decr kv cmd clock =
    some (incr_effect (arg cmd 0) (string_state kv (arg cmd 0) (clock 1)) (some (negsuc 0)))
prepare_verb on_incrby kv cmd clock =
    some (incr_effect (arg cmd 0) (string_state kv (arg cmd 0) (clock 1)) (parse_int (arg cmd 1)))
prepare_verb on_decrby kv cmd clock = some (
    incr_effect (arg cmd 0) (string_state kv (arg cmd 0) (clock 1))
      (negated (parse_int (arg cmd 1))))
prepare_verb on_append kv cmd clock = some (
    if ltb (num_args cmd) 2
    then []
    else append_effect (arg cmd 0) (arg cmd 1) (string_state kv (arg cmd 0) (clock 1)))
prepare_verb _ kv cmd clock = none

-- The last effect on each key that sets or deletes it.
unfoldable pub final_effects : List WalEffect → Dict WalEffect → Dict WalEffect
final_effects [] final = final
final_effects (effect ∷ effects) final = final_effects effects (
    if effect.typ == record_set || effect.typ == record_delete
    then insert effect.key effect final
    else final)

abbrev pub entry_overhead : ℕ
entry_overhead = 96

-- What an entry that is there counts: its bytes only if it is a string.
unfoldable pub entry_cost : Bytes → Option Entry → ℕ
entry_cost key none = 0
entry_cost key (some e) =
    length key
    + entry_overhead
    + (if eqb e.typ type_string then elim e.value [ bytes_value b ↦ length b | _ ↦ 0 ] else 0)

unfoldable pub effect_cost : WalEffect → ℕ
effect_cost effect =
    if effect.typ == record_set then length effect.key + length effect.value + entry_overhead else 0

unfoldable pub project_memory : KvStore → Dict WalEffect → (ℕ → ℤ) → ℕ → ℤ → ℤ
unfolding entry_cost effect_cost
project_memory kv [] clock n projected = projected
project_memory kv ((key, effect) ∷ final) clock n projected =
    project_memory kv final clock (suc n)
      (projected -ℤ pos (entry_cost key (get kv key (clock n))) +ℤ pos (effect_cost effect))

unfoldable pub fits_quota : ℤ → ℤ → Bool
fits_quota max_memory projected = leb_ℤ max_memory (pos 0) || leb_ℤ projected max_memory

unfoldable pub effects_fit_quota : KvStore → ℤ → ℤ → List WalEffect → (ℕ → ℤ) → Bool × ℤ
unfolding final_effects project_memory fits_quota
effects_fit_quota kv max_memory accounted effects clock =
    let projected = project_memory kv (final_effects effects []) clock 0 accounted in
    (fits_quota max_memory projected, projected)
