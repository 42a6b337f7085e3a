-- ===== src/Query/Reply.antt =====
-- internal/protocol/response.go: what the handlers write, frame by frame. The texts of the errors are
-- kept as data.
use dbx_database_extreme.Base.{
  Bytes, Option, none, some, List, [], ◌∷◌, ◌++◌, map, codes, length, ℤ, pos, negsuc,
}
use dbx_database_extreme.Util.Decimal.{format_int}
use dbx_database_extreme.Engine.Typed.{StoreError}

pub data Message : Type 0 where
  wrong_num_args : Bytes → Message
  store_error : StoreError → Message
  not_integer invalid_expire key_not_found wal_failed : Message
  unknown_command unsupported read_only_replica quota_exceeded internal_error : Message

pub data Frame : Type 0 where
  simple_string : Bytes → Frame
  error_frame : Message → Frame
  integer : ℤ → Frame
  -- none is the null bulk string.
  bulk : Option Bytes → Frame
  array : ℤ → Frame

unfoldable pub ok_frame : Frame
ok_frame = simple_string (codes "OK")

unfoldable pub crlf : Bytes
crlf = 13 ∷ 10 ∷ []

-- `text` gives an error its words.
module _ (text : Message → Bytes) where
  unfoldable pub encode_frame : Frame → Bytes
  unfolding crlf
  encode_frame (simple_string s) = codes "+" ++ s ++ crlf
  encode_frame (error_frame m) = codes "-ERR " ++ text m ++ crlf
  encode_frame (integer n) = codes ":" ++ format_int n ++ crlf
  encode_frame (bulk none) = codes "$-1" ++ crlf
  encode_frame (bulk (some b)) = codes "$" ++ format_int (pos (length b)) ++ crlf ++ b ++ crlf
  encode_frame (array (negsuc n)) = codes "*-1" ++ crlf
  encode_frame (array (pos n)) = codes "*" ++ format_int (pos n) ++ crlf

  -- One write behind the other.
  unfoldable pub encode_frames : List Frame → Bytes
  unfolding encode_frame
  encode_frames [] = []
  encode_frames (f ∷ frames) = encode_frame f ++ encode_frames frames

-- `WriteBytes`, and the loops that write an array of bulk strings.
unfoldable pub array_of : List (Option Bytes) → List Frame
array_of items = array (pos (length items)) ∷ map bulk items

unfoldable pub write_strings : List Bytes → List Frame
unfolding array_of
write_strings strs = array_of (map some strs)
