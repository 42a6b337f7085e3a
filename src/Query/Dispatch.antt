-- ===== src/Query/Dispatch.antt =====
-- `Dispatch` of internal/query/executor.go: the cases on keys and strings. A handler takes the readings
-- of the clock that it makes, in order.
use dbx_database_extreme.Base.{
  ℕ, suc, Bool, true, false, ◌||◌, not, Bytes, Option, none, some, List, [], ◌∷◌, map, Dict, insert,
  eqb, codes, drop, length, ltb, ◌==◌, ℤ, pos, negsuc, leb_ℤ, wrap64, scale, if◌then◌else◌,
}
use dbx_database_extreme.Util.Decimal.{parse_int}
use dbx_database_extreme.Engine.Kv.{
  KvStore, second, delete_keys, exists_key, expire, ttl, persist, type_of, rename,
}
use dbx_database_extreme.Engine.Typed.{Answer, done, failed, panicked}
use dbx_database_extreme.Engine.Strings.{
  get_string, set_string, get_set, incr, append_to, strlen, mget, mset,
}
use dbx_database_extreme.Engine.Strings.SetArgs.{SetArgs, parse_set_args, to_upper}
use dbx_database_extreme.Engine.Kv.Scan.{keys, db_size}
use dbx_database_extreme.Persistence.Wal.Encode.{WalEffect}
use dbx_database_extreme.Query.Command.{Command, arg, num_args, normalized}
use dbx_database_extreme.Query.Verb.{
  Verb, on_del, on_exists, on_expire, on_ttl, on_persist, on_type, on_rename, on_get, on_set,
  on_setex, on_mget, on_mset, on_incr, on_decr, on_incrby, on_decrby, on_append, on_strlen,
  on_setnx, on_getset, on_keys, on_scan, on_dbsize, on_other, verb_of,
}
use dbx_database_extreme.Query.Effects.{put, deletion, expiry, negated, is_even}
use dbx_database_extreme.Query.Reply.{
  Message, Frame, simple_string, error_frame, integer, bulk, wrong_num_args, store_error,
  not_integer, invalid_expire, key_not_found, ok_frame, array_of, array, write_strings,
}
use dbx_database_extreme.Query.Executor.{
  Executor, Log, Outcome, write_wal, write_wal_all, logged_reply,
}

unfoldable pub replied : Executor → List Frame → Outcome
replied e frames = (some frames, e)

unfoldable pub refuse : Executor → Message → Outcome
refuse e m = (some (error_frame m ∷ []), e)

unfoldable pub wrong_args : Executor → Bytes → Outcome
wrong_args e name = (some (error_frame (wrong_num_args name) ∷ []), e)

-- What a store answers, as a reply.
unfoldable pub answered : {B : Type 0} → Executor → Answer B → (B → List Frame) → Outcome
answered e (done b) f = (some (f b), e)
answered e (failed m) f = (some (error_frame (store_error m) ∷ []), e)
answered e panicked f = (none, e)

abbrev pub with_kv : Executor → KvStore → Executor
with_kv e kv = record e { kv = kv }

abbrev pub flag : Bool → List Frame
flag b = integer (if b then pos 1 else pos 0) ∷ []

unfoldable pub count_existing : KvStore → List Bytes → (ℕ → ℤ) → ℕ → ℕ
count_existing kv [] clock n = 0
count_existing kv (k ∷ keys) clock n =
    let rest = count_existing kv keys clock (suc n) in
    if exists_key kv k (clock n) then suc rest else rest

-- Each key with its reading of the clock.
unfoldable pub with_clock : List Bytes → (ℕ → ℤ) → ℕ → List (Bytes × ℤ)
with_clock [] clock n = []
with_clock (k ∷ keys) clock n = (k, clock n) ∷ with_clock keys clock (suc n)

-- The map of the pairs of MSET, with the pairs in front of them.
unfoldable pub pairs_of : List Bytes → Dict Bytes → Dict Bytes
pairs_of [] pairs = pairs
pairs_of (k ∷ []) pairs = pairs
pairs_of (k ∷ v ∷ args) pairs = pairs_of args (insert k v pairs)

unfoldable pub timed_pairs : Dict Bytes → (ℕ → ℤ) → ℕ → List (Bytes × Bytes × ℤ)
timed_pairs [] clock n = []
timed_pairs ((k, v) ∷ pairs) clock n = (k, v, clock n) ∷ timed_pairs pairs clock (suc n)

unfoldable pub keys_pattern : List Bytes → Bytes
keys_pattern [] = codes "*"
keys_pattern (p ∷ args) = p

-- The options of SCAN two by two; COUNT is read and not used.
unfoldable pub scan_pattern : Bytes → List Bytes → Bytes
scan_pattern pattern [] = pattern
scan_pattern pattern (name ∷ []) = pattern
scan_pattern pattern (name ∷ value ∷ args) =
    scan_pattern (if eqb (to_upper name) (codes "MATCH") then value else pattern) args

unfoldable pub set_args_of : Command → Answer SetArgs
set_args_of cmd =
    if num_args cmd == 2
    then done (record { value = arg cmd 1; ttl_sec = pos 0; nx = false; xx = false })
    else parse_set_args (drop 1 cmd.args)

abbrev pub milli : ℕ
milli = 1_000_000

module _ (accepts : Log → List WalEffect → Bool) where
  unfoldable pub del_done : Executor → List Bytes → ℕ × KvStore → (ℕ → ℤ) → Outcome
  unfolding replied
  del_done e keys (n, kv) clock =
      if ltb 0 n
      then logged_reply (write_wal_all accepts (with_kv e kv) (map deletion keys) clock 0)
          (integer (pos n) ∷ [])
      else replied (with_kv e kv) (integer (pos n) ∷ [])

  unfoldable pub expire_done : Executor → Bytes → ℤ → ℤ → Bool × KvStore → Outcome
  unfolding replied
  expire_done e key seconds stamp (ok, kv) =
      if ok
      then logged_reply
          (write_wal accepts (with_kv e kv) (expiry key (wrap64 (scale second seconds))) stamp)
          (integer (pos 1) ∷ [])
      else replied (with_kv e kv) (integer (pos 0) ∷ [])

  unfoldable pub expire_parsed : Executor → Bytes → Option ℤ → ℤ → ℤ → ℤ → Outcome
  unfolding expire_done refuse
  expire_parsed e key none now now' stamp = refuse e not_integer
  expire_parsed e key (some seconds) now now' stamp =
      expire_done e key seconds stamp (expire e.kv key seconds now now')

  -- The record of SET carries the seconds times 1e6, and is stamped at `stamp`.
  unfoldable pub set_done : Executor → Bytes → Bytes → ℤ → ℤ → Bool × KvStore → Outcome
  unfolding replied
  set_done e key value seconds stamp (ok, kv) =
      if ok
      then logged_reply
          (write_wal accepts (with_kv e kv) (put key value (wrap64 (scale milli seconds))) stamp)
          (ok_frame ∷ [])
      else replied (with_kv e kv) (bulk none ∷ [])

  unfoldable pub set_parsed : Executor → Bytes → Answer SetArgs → (ℕ → ℤ) → Outcome
  unfolding set_done
  set_parsed e key (done a) clock =
      set_done e key a.value a.ttl_sec (clock 3)
        (set_string e.kv key a.value a.ttl_sec a.nx a.xx (clock 0) (clock 1) (clock 2))
  set_parsed e key (failed m) clock = (some (error_frame (store_error m) ∷ []), e)
  set_parsed e key panicked clock = (none, e)

  unfoldable pub setex_parsed : Executor → Bytes → Bytes → Option ℤ → (ℕ → ℤ) → Outcome
  unfolding set_done refuse
  setex_parsed e key value none clock = refuse e invalid_expire
  setex_parsed e key value (some seconds) clock =
      if leb_ℤ seconds (pos 0)
      then refuse e invalid_expire
      else set_done e key value seconds (clock 3)
          (set_string e.kv key value seconds false false (clock 0) (clock 1) (clock 2))

  unfoldable pub mset_handler : Executor → Dict Bytes → (ℕ → ℤ) → Outcome
  mset_handler e pairs clock =
      logged_reply
        (write_wal_all accepts (with_kv e (mset e.kv (timed_pairs pairs clock 0)))
          (map (λ (p : Bytes × Bytes). put p.0 p.1 (pos 0)) pairs) clock (length pairs))
        (ok_frame ∷ [])

  unfoldable pub incr_parsed_by : Executor → Bytes → Option ℤ → ℤ → Outcome
  unfolding answered refuse
  incr_parsed_by e key none now = refuse e not_integer
  incr_parsed_by e key (some by) now =
      let (a, kv) = incr e.kv key by now in answered (with_kv e kv) a (λ n. integer n ∷ [])

  -- `other` stands for the cases that are not modelled here.
  module _ (other : Executor → Command → (ℕ → ℤ) → Outcome) where
    unfoldable pub dispatch_verb : Verb → Executor → Command → (ℕ → ℤ) → Outcome
    unfolding keys_pattern scan_pattern wrong_args refuse replied answered del_done expire_parsed
        set_parsed setex_parsed mset_handler incr_parsed_by
    dispatch_verb on_del e cmd clock =
        if ltb (num_args cmd) 1
        then wrong_args e (normalized cmd)
        else del_done e cmd.args (delete_keys e.kv cmd.args) clock
    dispatch_verb on_exists e cmd clock =
        if ltb (num_args cmd) 1
        then wrong_args e (normalized cmd)
        else replied e (integer (pos (count_existing e.kv cmd.args clock 0)) ∷ [])
    dispatch_verb on_expire e cmd clock =
        if ltb (num_args cmd) 2
        then wrong_args e (normalized cmd)
        else expire_parsed e (arg cmd 0) (parse_int (arg cmd 1)) (clock 0) (clock 1) (clock 2)
    dispatch_verb on_ttl e cmd clock =
        if ltb (num_args cmd) 1
        then wrong_args e (normalized cmd)
        else replied e (integer (ttl e.kv (arg cmd 0) (clock 0) (clock 1)) ∷ [])
    dispatch_verb on_persist e cmd clock =
        let (ok, kv) = persist e.kv (arg cmd 0) (clock 0) in replied (with_kv e kv) (flag ok)
    dispatch_verb on_type e cmd clock =
        replied e (simple_string (type_of e.kv (arg cmd 0) (clock 0)) ∷ [])
    dispatch_verb on_rename e cmd clock =
        if ltb (num_args cmd) 2
        then wrong_args e (normalized cmd)
        else let (ok, kv) = rename e.kv (arg cmd 0) (arg cmd 1) (clock 0) (clock 1) (clock 2) in
          if ok then replied (with_kv e kv) (ok_frame ∷ []) else refuse (with_kv e kv) key_not_found
    dispatch_verb on_get e cmd clock =
        if ltb (num_args cmd) 1
        then wrong_args e (normalized cmd)
        else answered e (get_string e.kv (arg cmd 0) (clock 0)) (λ v. bulk v ∷ [])
    dispatch_verb on_set e cmd clock =
        if ltb (num_args cmd) 2
        then wrong_args e (normalized cmd)
        else set_parsed e (arg cmd 0) (set_args_of cmd) clock
    dispatch_verb on_setex e cmd clock =
        if ltb (num_args cmd) 3
        then wrong_args e (normalized cmd)
        else setex_parsed e (arg cmd 0) (arg cmd 2) (parse_int (arg cmd 1)) clock
    dispatch_verb on_mget e cmd clock =
        answered e (mget e.kv (with_clock cmd.args clock 0)) array_of
    dispatch_verb on_mset e cmd clock =
        if ltb (num_args cmd) 2 || not (is_even (num_args cmd))
        then wrong_args e (normalized cmd)
        else mset_handler e (pairs_of cmd.args []) clock
    dispatch_verb on_incr e cmd clock = incr_parsed_by e (arg cmd 0) (some (pos 1)) (clock 0)
    dispatch_verb on_decr e cmd clock = incr_parsed_by e (arg cmd 0) (some (negsuc 0)) (clock 0)
    dispatch_verb on_incrby e cmd clock =
        if ltb (num_args cmd) 2
        then wrong_args e (normalized cmd)
        else incr_parsed_by e (arg cmd 0) (parse_int (arg cmd 1)) (clock 0)
    dispatch_verb on_decrby e cmd clock =
        if ltb (num_args cmd) 2
        then wrong_args e (normalized cmd)
        else incr_parsed_by e (arg cmd 0) (negated (parse_int (arg cmd 1))) (clock 0)
    dispatch_verb on_append e cmd clock =
        if ltb (num_args cmd) 2
        then wrong_args e (normalized cmd)
        else let (a, kv) = append_to e.kv (arg cmd 0) (arg cmd 1) (clock 0) in
          answered (with_kv e kv) a (λ n. integer (pos n) ∷ [])
    dispatch_verb on_strlen e cmd clock =
        answered e (strlen e.kv (arg cmd 0) (clock 0)) (λ n. integer (pos n) ∷ [])
    dispatch_verb on_setnx e cmd clock =
        if ltb (num_args cmd) 2
        then wrong_args e (normalized cmd)
        else let (ok, kv) =
            set_string e.kv (arg cmd 0) (arg cmd 1) (pos 0) true false (clock 0) (clock 1)
              (clock 2) in
          replied (with_kv e kv) (flag ok)
    dispatch_verb on_getset e cmd clock =
        let (a, kv) = get_set e.kv (arg cmd 0) (arg cmd 1) (clock 0) (clock 1) in
        answered (with_kv e kv) a (λ v. bulk v ∷ [])
    dispatch_verb on_keys e cmd clock =
        replied e (write_strings (keys e.kv (keys_pattern cmd.args) clock))
    dispatch_verb on_scan e cmd clock = replied e (
        array (pos 2)
        ∷ bulk (some (codes "0"))
        ∷ write_strings (keys e.kv (scan_pattern (codes "*") (drop 1 cmd.args)) clock))
    dispatch_verb on_dbsize e cmd clock = replied e (integer (pos (db_size e.kv clock)) ∷ [])
    dispatch_verb on_other e cmd clock = other e cmd clock

    unfoldable pub dispatch : Executor → Command → (ℕ → ℤ) → Outcome
    unfolding dispatch_verb
    dispatch e cmd clock = dispatch_verb (verb_of cmd) e cmd clock
