-- ===== src/Examples/Queries.antt =====
-- An executor with a log, and two commands.
use dbx_database_extreme.Query.Effects.{state_of}
use dbx_database_extreme.Base.{ap}
use dbx_database_extreme.Engine.Kv.{
  set_key, persist, deadline_after, store, push_expiry, written_entry,
}
use dbx_database_extreme.Engine.Kv.Find.{set_key-IsSharded}
use dbx_database_extreme.Engine.Entry.{Entry, bytes_value, type_string, is_expired}
use dbx_database_extreme.Engine.Typed.{done}
use dbx_database_extreme.Persistence.Recovery.{replay_effects}
use dbx_database_extreme.Util.Hash.{shard_index}
use dbx_database_extreme.Base.{
  ℕ, ◌+◌, ◌≡◌, refl, sym, subst, ◌∙◌, ◌⊎◌, drop, ◌<◌, Bool, true, false, none, some, List, [], ◌∷◌,
  Bytes, arith, lookup, eqb, codes, ℤ, pos, wrap64, id_lookup, ◌+ℤ◌, insert,
}
use dbx_database_extreme.Engine.Kv.{KvStore, new, get, find, new_sized}
use dbx_database_extreme.Engine.Kv.Shards.{new-IsSharded}
use dbx_database_extreme.Persistence.Wal.Encode.{WalEffect}
use dbx_database_extreme.Query.Command.{Command, normalized, num_args, arg}
use dbx_database_extreme.Query.Effects.{
  put, expiry, prepare_verb, persist_effect, string_state, holding,
}
use dbx_database_extreme.Query.Verb.{verb_of, verbs}
use dbx_database_extreme.Transaction.Multi.{is_active}
use dbx_database_extreme.Engine.Strings.SetArgs.{SetArgs, parse_set_args, to_upper}
use dbx_database_extreme.Util.Decimal.{parse_int}
use dbx_database_extreme.Query.Crash.Commands.{IsSafe, IsTimely, effects_of}
use dbx_database_extreme.Query.Dispatch.{dispatch_verb}
use dbx_database_extreme.Query.Crash.Logged.{IsDecided, execute-IsDecided}
use dbx_database_extreme.Query.Effects.{effects_fit_quota}
use dbx_database_extreme.Query.Crash.Refined.{dispatch_verb-IsStep}
use dbx_database_extreme.Query.Crash.Written.{IsHeld}
use dbx_database_extreme.Query.Crash.Lost.{persist-lost}
use dbx_database_extreme.Query.Executor.{Executor, Log, Outcome}
use dbx_database_extreme.Query.Execute.{execute}
use dbx_database_extreme.Query.Crash.View.{view, new-IsClean, IsStep, same-IsStep}
use dbx_database_extreme.Query.Crash.Executed.{IsMutation, IsRefused, IsTaken, execute-cases}
use dbx_database_extreme.Query.Crash.History.{
  Request, run, IsSafeRun, IsCovered, all_effects, run-IsCovered, recovery-run,
}

abbrev pub accepts : Log → List WalEffect → Bool
accepts log es = true

abbrev pub other : Executor → Command → (ℕ → ℤ) → Outcome
other e cmd clock = (some [], e)

abbrev measure : KvStore → ℤ
measure kv = pos 0

abbrev pub idle : Executor
idle = record {
  kv = new (pos 4);
  wal = some [];
  suppress_wal = false;
  max_memory = pos 0;
  accounted_memory = pos 0;
  read_only = false;
  multi = [];
}

abbrev pub set_city : Command
set_city = record {
  name = codes "set";
  args = codes "city" ∷ codes "Delhi" ∷ codes "EX" ∷ codes "50" ∷ [];
  client_id = 1;
}

abbrev set_effects : List WalEffect
set_effects = put (codes "city") (codes "Delhi") (pos 50_000_000_100) ∷ []

idle-outside : is_active idle.multi 1 ≡ false
unfolding is_active id_lookup
idle-outside = refl

set_city-prepared :
    prepare_verb (verb_of set_city) idle.kv set_city (λ i. pos 100) ≡ some set_effects
unfolding prepare_verb verb_of verbs num_args parse_set_args parse_int get find new normalized
    to_upper lookup eqb new_sized shard_index arg wrap64 ◌+ℤ◌
set_city-prepared = refl

set_city-IsMutation : IsMutation idle 1 set_city 100 [] set_effects
set_city-IsMutation = record {
  outside = idle-outside;
  takes_writes = refl;
  has_log = refl;
  has_effects = set_city-prepared;
  nonempty = (put (codes "city") (codes "Delhi") (pos 50_000_000_100), [], refl);
}

abbrev parsed_city : SetArgs
parsed_city = record { value = codes "Delhi"; ttl_sec = pos 50; nx = false; xx = false }

set_city-parsed : parse_set_args (drop 1 set_city.args) ≡ done parsed_city
unfolding parse_set_args eqb parse_int
set_city-parsed = refl

parsed-IsTimely : (a : SetArgs) → done parsed_city ≡ done a → IsTimely a.ttl_sec 100
parsed-IsTimely a h =
    let same : parsed_city ≡ a = cc in
    subst (λ (x : SetArgs). IsTimely x.ttl_sec 100) {x = parsed_city} {y = a} same
      (refl, omega arith)

pub set_city-IsSafe : IsSafe (verb_of set_city) idle.kv set_city 100
unfolding verb_of verbs normalized to_upper lookup eqb
set_city-IsSafe a h = parsed-IsTimely a (sym set_city-parsed ∙ h)

execute-cases_example :
    IsRefused accepts other measure
      (execute accepts other measure idle 1 set_city (λ i k. pos 100))
      idle
    ⊎ IsTaken accepts other measure
        (execute accepts other measure idle 1 set_city (λ i k. pos 100))
        idle
        []
        set_effects
        100
execute-cases_example =
    execute-cases accepts other measure idle 1 set_city 100 [] set_effects set_city-IsMutation
      (new-IsClean (pos 4)) (new-IsSharded (pos 4)) (omega arith) set_city-IsSafe

dispatch_verb-IsStep_example :
    IsStep idle.kv
      (dispatch_verb accepts other (verb_of set_city) idle set_city (λ i. pos 100)).1.kv
      (effects_of (prepare_verb (verb_of set_city) idle.kv set_city (λ i. pos 100)))
      100
dispatch_verb-IsStep_example =
    dispatch_verb-IsStep accepts other idle set_city 100 (new-IsClean (pos 4))
      (new-IsSharded (pos 4)) (verb_of set_city) (omega arith) set_city-IsSafe

abbrev requests : List Request
requests = record { client = 1; time = 100; command = set_city } ∷ []

requests-IsSafeRun : IsSafeRun accepts other measure idle requests 200
unfolding IsSafeRun
requests-IsSafeRun = (([], set_effects, set_city-IsMutation), omega arith, set_city-IsSafe, tt)

recovery-run_example :
    (log : Log) × (kv' : KvStore) × ((run accepts other measure idle requests).wal ≡ some log)
    × (replay_effects (λ i. pos 200) 0 idle.kv (all_effects log) ≡ some kv')
    × ((j : Bytes) (l : ℕ)
        → 200 < l
        → view kv' j l ≡ view (run accepts other measure idle requests).kv j l)
recovery-run_example =
    recovery-run accepts other measure idle requests 200 refl (new-IsClean (pos 4))
      (new-IsSharded (pos 4)) (omega arith) requests-IsSafeRun

run-IsCovered_example : IsCovered (new (pos 4)) (run accepts other measure idle requests) 200
unfolding all_effects
run-IsCovered_example =
    run-IsCovered accepts other measure (new (pos 4)) idle requests 200 (omega arith)
      requests-IsSafeRun
      ([], refl, same-IsStep (new (pos 4)) 200 (new-IsClean (pos 4)) (new-IsSharded (pos 4)))

-- The readings of the clock differ.
execute-IsDecided_example :
    IsDecided accepts other measure
      (execute accepts other measure idle 1 set_city (λ i k. pos (100 + i)))
      idle
      set_city
      []
      set_effects
      (effects_fit_quota idle.kv idle.max_memory idle.accounted_memory set_effects (λ k. pos 101)).0
      (λ k. pos 102)
execute-IsDecided_example =
    execute-IsDecided accepts other measure idle 1 set_city (λ i k. pos (100 + i)) []
      (put (codes "city") (codes "Delhi") (pos 50_000_000_100)) [] idle-outside refl refl
      set_city-prepared

abbrev held : KvStore
held =
    set_key (new (pos 4)) (codes "city") (bytes_value (codes "Delhi")) type_string (pos 50)
      (pos 100)

abbrev held_entry : Entry
held_entry = record {
  value = bytes_value (codes "Delhi");
  typ = type_string;
  expires_at = pos 150;
  version = 1;
  created_at = pos 100;
  updated_at = pos 100;
}

held-found : get held (codes "city") (pos 120) ≡ some held_entry
unfolding get find lookup set_key deadline_after wrap64 ◌+ℤ◌ push_expiry store new new_sized
    shard_index insert eqb is_expired written_entry
held-found = refl

held-state : string_state held (codes "city") (pos 120) ≡ holding (codes "Delhi") (pos 150)
unfolding string_state state_of eqb
held-state = ap state_of held-found

held-IsHeld : IsHeld held (codes "city") 120
held-IsHeld = record {
  entry = held_entry;
  held = codes "Delhi";
  due = 150;
  found = held-found;
  has_state = held-state;
  has_value = refl;
  has_typ = refl;
  has_deadline = refl;
  in_range = omega arith;
}

persist-lost_example :
    (view (persist held (codes "city") (pos 120)).1 (codes "city") 500
      ≡ some (bytes_value (codes "Delhi"), type_string, pos 0))
    × (persist_effect (codes "city") (get held (codes "city") (pos 120))
        ≡ expiry (codes "city") (pos 0) ∷ [])
    × ((kv' : KvStore) × (replay_effects
            (λ i. pos 400)
            0
            (new (pos 4))
            (put (codes "city") (codes "Delhi") (pos 150) ∷ expiry (codes "city") (pos 0) ∷ [])
          ≡ some kv')
        × (view kv' (codes "city") 500 ≡ none))
unfolding held-IsHeld
persist-lost_example =
    persist-lost held (new (pos 4)) (codes "city") 120 400 500 held-IsHeld
      (set_key-IsSharded (new (pos 4)) (new-IsSharded (pos 4)) (codes "city")
        (bytes_value (codes "Delhi")) type_string (pos 50) (pos 100))
      (new-IsSharded (pos 4)) (omega arith) (omega arith) (omega arith)
