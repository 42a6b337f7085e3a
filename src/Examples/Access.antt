-- ===== src/Examples/Access.antt =====
-- The bytes of a command, and users who may reach some keys only.
use dbx_database_extreme.Base.{
  ◌≡◌, ◌≢◌, refl, inl, inr, true, false, Bytes, none, some, [], ◌∷◌, ◌++◌, arith, codes, pos,
  negsuc, eqb, lookup,
}
use dbx_database_extreme.Engine.Kv.Expiry.{contains}
use dbx_database_extreme.Engine.Kv.Shards.{new-IsSharded}
use dbx_database_extreme.Engine.Strings.SetArgs.{to_upper}
use dbx_database_extreme.Query.Command.{
  CommandInfo, lookup_info, registry, normalized, affected_keys, key_at, num_args, arg,
}
use dbx_database_extreme.Query.Crash.View.{view, new-IsClean}
use dbx_database_extreme.Query.Dispatch.{dispatch}
use dbx_database_extreme.Query.Reply.{Message, encode_frames, write_strings}
use dbx_database_extreme.Protocol.Parser.{parsed, read_command}
use dbx_database_extreme.Protocol.Parser.Bounds.{Gives, IsBounded, read_command-IsBounded}
use dbx_database_extreme.Protocol.Parser.RoundTrip.{read_command-encode_frames}
use dbx_database_extreme.Security.Acl.{User, can_execute, can_access_key, has_perm, everything}
use dbx_database_extreme.Security.Acl.Enforcer.{enforce}
use dbx_database_extreme.Security.Acl.Gaps.{IsReader, unguarded, reader-unguarded}
use dbx_database_extreme.Security.Acl.Untouched.{dispatch_untouched}
use dbx_database_extreme.Examples.Queries.{accepts, other, idle, set_city, set_city-IsSafe}
use dbx_database_extreme.Base.{ℤ}
use dbx_database_extreme.Engine.Kv.{KvStore, find}
use dbx_database_extreme.Query.Verb.{verbs}
use dbx_database_extreme.Query.Executor.{Executor}
use dbx_database_extreme.Query.Execute.{execute}
use dbx_database_extreme.Query.Stores.{store_verbs, on_sadd, dispatch_stores}
use dbx_database_extreme.Query.Stores.Replica.{execute_unchanged}
use dbx_database_extreme.Security.Acl.Stores.{dispatch_stores_untouched}
use dbx_database_extreme.Base.{List}
use dbx_database_extreme.Query.Command.{Command}

abbrev no_text : Message → Bytes
no_text m = []

read_command-encode_frames_example :
    read_command
      (encode_frames no_text (write_strings (codes "GET" ∷ (13 ∷ 10 ∷ []) ∷ [])) ++ codes "PING")
    ≡ parsed
        (record { name = codes "GET"; args = (13 ∷ 10 ∷ []) ∷ []; client_id = 0 })
        (codes "PING")
read_command-encode_frames_example =
    read_command-encode_frames no_text (codes "GET") ((13 ∷ 10 ∷ []) ∷ []) (codes "PING")
      (omega arith) (omega arith, (omega arith, tt))

read_command-IsBounded_example :
    Gives (IsBounded (codes "PING\r\nGET")) (read_command (codes "PING\r\nGET"))
read_command-IsBounded_example = read_command-IsBounded (codes "PING\r\nGET")

-- A line that the end of the stream cuts off is a command all the same.
read_command_cut_off :
    read_command (codes "DEL ab")
    ≡ parsed (record { name = codes "DEL"; args = codes "ab" ∷ []; client_id = 0 }) []
unfolding read_command
read_command_cut_off = refl

-- May write the keys that begin with "c".
abbrev writer : User
writer = record {
  name = codes "w";
  password_hash = [];
  enabled = true;
  permissions = 3;
  allowed_keys = codes "c*" ∷ [];
  allowed_channels = [];
  no_pass = true;
}

writer_passes : enforce (some writer) set_city ≡ none
unfolding enforce normalized affected_keys key_at lookup_info registry lookup eqb to_upper num_args
    arg can_access_key can_execute
writer_passes = refl

writer_denied : can_access_key writer (codes "dog") ≡ false
unfolding can_access_key eqb
writer_denied = refl

dog_ne_nil : codes "dog" ≢ []
dog_ne_nil = λ e. cc

dispatch_untouched_example :
    view (dispatch accepts other idle set_city (λ i. pos 100)).1.kv (codes "dog") 101
    ≡ view idle.kv (codes "dog") 101
dispatch_untouched_example =
    dispatch_untouched accepts other idle set_city 100 writer (codes "dog") 101
      (new-IsClean (pos 4)) (new-IsSharded (pos 4)) (omega arith) set_city-IsSafe writer_passes
      writer_denied dog_ne_nil (omega arith)

abbrev reader : User
reader = record {
  name = codes "r";
  password_hash = [];
  enabled = true;
  permissions = 1;
  allowed_keys = everything;
  allowed_channels = [];
  no_pass = true;
}

reader-IsReader : IsReader reader
unfolding has_perm
reader-IsReader = record { is_enabled = refl; reads_keys = refl; no_writes = refl; no_admin = refl }

abbrev migrate_info : CommandInfo
migrate_info = record {
  name = codes "VMIGRATE";
  arity = negsuc 2;
  read_only = false;
  admin = false;
  key_index = 2;
  durable_v1 = true;
}

migrate_known : lookup_info (codes "vmigrate") ≡ some migrate_info
unfolding lookup_info lookup registry eqb to_upper
migrate_known = refl

reader-unguarded_example :
    can_execute reader (codes "vmigrate") ≡ contains unguarded (to_upper (codes "vmigrate"))
reader-unguarded_example =
    reader-unguarded reader (codes "vmigrate") migrate_info reader-IsReader migrate_known refl

abbrev add_member : Command
add_member = record { name = codes "sadd"; args = codes "c" ∷ codes "x" ∷ []; client_id = 1 }

add_member_known : lookup (normalized add_member) store_verbs ≡ some on_sadd
unfolding lookup store_verbs normalized to_upper eqb
add_member_known = refl

add_member_passes : enforce (some writer) add_member ≡ none
unfolding enforce normalized affected_keys key_at lookup_info registry lookup eqb to_upper num_args
    arg can_access_key can_execute
add_member_passes = refl

abbrev as_stored : List Bytes → List Bytes
as_stored members = members

dispatch_stores_untouched_example :
    find
      (dispatch accepts (dispatch_stores as_stored other) idle add_member (λ i. pos 100)).1.kv
      (codes "dog")
    ≡ find idle.kv (codes "dog")
dispatch_stores_untouched_example =
    dispatch_stores_untouched accepts as_stored other idle add_member (λ i. pos 100) writer on_sadd
      (codes "dog") (new-IsSharded (pos 4)) add_member_known add_member_passes writer_denied
      dog_ne_nil

abbrev replica : Executor
replica = record idle { read_only = true }

add_member_other : lookup (normalized add_member) verbs ≡ none
unfolding lookup verbs normalized to_upper eqb
add_member_other = refl

abbrev measured : KvStore → ℤ
measured kv = pos 0

execute_unchanged_example :
    (execute accepts
      (dispatch_stores as_stored other)
      measured
      replica
      1
      add_member
      (λ i k. pos 100)).1.kv
    ≡ replica.kv
execute_unchanged_example =
    execute_unchanged accepts as_stored other measured replica add_member 1 (λ i k. pos 100)
      (inr (add_member_other, (on_sadd, add_member_known))) (inl refl)
