-- ===== src/Engine/Entry.antt =====
-- The entry of internal/engine/kv.go, the data types of internal/protocol/command.go, and the values
-- that an entry can hold.
use dbx_database_extreme.Base.{
  ℕ, Bool, false, Bytes, List, Dict, ℤ, pos, codes, ltb_ℤ, eqb_ℤ, if◌then◌else◌,
}

abbrev pub DataType : Type 0
DataType = Bytes

abbrev pub type_string : DataType
type_string = codes "string"

abbrev pub type_hash : DataType
type_hash = codes "hash"

abbrev pub type_list : DataType
type_list = codes "list"

abbrev pub type_set : DataType
type_set = codes "set"

abbrev pub type_stream : DataType
type_stream = codes "stream"

abbrev pub type_bitmap : DataType
type_bitmap = codes "bitmap"

abbrev pub type_vector : DataType
type_vector = codes "vector"

abbrev pub type_none : DataType
type_none = codes "none"

pub record StreamEntry : Type 0 where
  pub id : Bytes
  pub fields : Dict Bytes

pub record Consumer : Type 0 where
  pub name : Bytes
  pub pending : List StreamEntry

pub record ConsumerGroup : Type 0 where
  pub name : Bytes
  pub last_id : Bytes
  pub consumers : Dict Consumer
  pub pending : List StreamEntry

pub record DbxStream : Type 0 where
  pub entries : List StreamEntry
  pub last_id : Bytes
  pub groups : Dict ConsumerGroup

-- The dynamic types behind `interface{}`. `other` stands for the values of the stores that are not
-- modelled: a document, a sorted set, a vector index (by a handle).
pub data Value : Type 0 where
  bytes_value : Bytes → Value
  list_value : List Bytes → Value
  hash_value : Dict Bytes → Value
  set_value : List Bytes → Value
  stream_value : DbxStream → Value
  other : ℕ → Value
  nil_value : Value

-- `expires_at` is a deadline in Unix nanoseconds, 0 for none.
pub record Entry : Type 0 where
  pub value : Value
  pub typ : DataType
  pub expires_at : ℤ
  pub version : ℕ
  pub created_at : ℤ
  pub updated_at : ℤ

-- `now` is what `time.Now().UnixNano()` returns.
unfoldable pub is_expired : Entry → ℤ → Bool
is_expired e now = if eqb_ℤ e.expires_at (pos 0) then false else ltb_ℤ e.expires_at now

-- An entry that a store's `getOrCreate` makes leaves the other fields at their zero values.
abbrev pub fresh_entry : Value → DataType → Entry
fresh_entry value typ = record {
  value = value;
  typ = typ;
  expires_at = pos 0;
  version = 0;
  created_at = pos 0;
  updated_at = pos 0;
}
