-- ===== src/Persistence/Wal/Scan.antt =====
-- Reading a segment of the log: `scanFrames`, `decodeFrames`, `scanRecordsMode`, `repairWALTail` and
-- the writing side, `encodeRecord`. A reader is the list of the bytes that it has not delivered.
use dbx_database_extreme.Base.{
  ℕ, zero, suc, ◌+◌, Bool, true, false, ◌||◌, Bytes, Option, none, some, List, [], ◌∷◌, ◌++◌,
  length, take, drop, ltb, leb, ◌==◌, codes, eqb, if◌then◌else◌,
}
use dbx_database_extreme.Persistence.Endian.{put32, get32}
use dbx_database_extreme.Persistence.Wal.Encode.{WalRecord, encode_record_plain}
use dbx_database_extreme.Persistence.Wal.Decode.{
  WalError, missing_header, unsupported_format, frame_length_torn, invalid_frame_length,
  frame_payload_torn, decrypt_failed, Result, ok, err, ◌>>=◌, max_frame_size, decode_frame,
}
use dbx_database_extreme.Security.Encryption.{Gcm, encrypt, decrypt}

-- `io.ReadFull`: `EOF` only if no byte was read, `ErrUnexpectedEOF` if some were.
pub data Read : Type 0 where
  full : Bytes → Bytes → Read
  eof unexpected_eof : Read

unfoldable pub read_full : ℕ → Bytes → Read
read_full k r =
    if leb k (length r)
    then full (take k r) (drop k r)
    else if length r == 0
    then eof
    else unexpected_eof

abbrev pub min_len : Option Gcm → ℕ
min_len none = 1 + 8 + 8 + 4 + 4
min_len (some gcm) = 12 + 16

unfoldable pub open_frame : Option Gcm → Bytes → Result Bytes
open_frame none frame = ok frame
open_frame (some gcm) frame = elim (decrypt gcm frame) [
  | none ↦ err decrypt_failed
  | some plain ↦
      if ltb (length plain) (1 + 8 + 8 + 4 + 4)
      then err (invalid_frame_length (length plain))
      else ok plain
]

-- One round of `scanFrames`, up to the call of `emit`.
pub data Next : Type 0 where
  end : Next
  bad : WalError → Next
  frame : WalRecord → Bytes → Next

unfoldable pub accept : Result WalRecord → Bytes → Next
accept (ok rec) rest = frame rec rest
accept (err e) rest = bad e

unfoldable pub after_payload : Bool → Option Gcm → Read → Next
unfolding accept open_frame
after_payload allow_partial_tail enc eof = bad frame_payload_torn
after_payload allow_partial_tail enc unexpected_eof =
    if allow_partial_tail then end else bad frame_payload_torn
after_payload allow_partial_tail enc (full payload rest) =
    accept (open_frame enc payload >>= decode_frame) rest

unfoldable pub after_length : Bool → Option Gcm → Read → Next
unfolding after_payload read_full
after_length allow_partial_tail enc eof = end
after_length allow_partial_tail enc unexpected_eof =
    if allow_partial_tail then end else bad frame_length_torn
after_length allow_partial_tail enc (full length_buf rest) =
    let frame_len = get32 length_buf in
    if ltb frame_len (min_len enc) || ltb max_frame_size frame_len
    then bad (invalid_frame_length frame_len)
    else after_payload allow_partial_tail enc (read_full frame_len rest)

unfoldable pub next_frame : Bool → Option Gcm → Bytes → Next
unfolding after_length
next_frame allow_partial_tail enc r = after_length allow_partial_tail enc (read_full 4 r)

-- `out_of_fuel` is no Go value. `stopped` is `errStopScan`.
pub data Outcome {ℓ} (S : Type ℓ) : Type ℓ where
  finished stopped : S → Outcome S
  failed : WalError → Outcome S
  out_of_fuel : Outcome S

module _ {ℓ} {S : Type ℓ} where
  -- The callback works on a state, and says whether to go on.
  unfoldable pub scan_frames :
      ℕ → Bool → Option Gcm → (S → WalRecord → S × Bool) → S → Bytes → Outcome S
  scan_frames zero partial enc emit s r = out_of_fuel
  scan_frames (suc fuel) partial enc emit s r = elim (next_frame partial enc r) [
    | end ↦ finished s
    | bad e ↦ failed e
    | frame rec rest ↦ elim (emit s rec).1 [
      | true ↦ scan_frames fuel partial enc emit (emit s rec).0 rest
      | false ↦ stopped (emit s rec).0
    ]
  ]

abbrev pub collect : List WalRecord → WalRecord → List WalRecord × Bool
collect records rec = (records ++ rec ∷ [], true)

-- Each round takes a byte at least, so one round more than there are bytes is enough.
unfoldable pub decode_frames : Bool → Option Gcm → Bytes → Outcome (List WalRecord)
decode_frames partial enc r = scan_frames (suc (length r)) partial enc collect [] r

abbrev pub wal_header : Option Gcm → Bytes
wal_header none = codes "DBXWAL2\n"
wal_header (some gcm) = codes "DBXWALe2"

unfoldable pub scan_records_mode : Bool → Option Gcm → Bytes → Outcome (List WalRecord)
scan_records_mode partial enc r =
    if ltb (length r) 8
    then failed missing_header
    else if eqb (take 8 r) (wal_header enc)
    then decode_frames partial enc (drop 8 r)
    else failed unsupported_format

-- What `OpenWAL` does with the file: keep it, cut it at an offset, or refuse to open it.
pub data Repair : Type 0 where
  kept : Repair
  truncated : ℕ → Repair
  refused : WalError → Repair
  out_of_fuel : Repair

-- One round of its loop.
pub data RepairStep : Type 0 where
  at_end torn : RepairStep
  broken : WalError → RepairStep
  passed : ℕ → Bytes → RepairStep

unfoldable pub repair_payload : Option Gcm → Bytes → ℕ → Read → RepairStep
repair_payload enc length_buf frame_len eof = broken frame_payload_torn
repair_payload enc length_buf frame_len unexpected_eof = torn
repair_payload enc length_buf frame_len (full payload rest) =
    elim (decode_frames false enc (length_buf ++ payload)) [
      | failed e ↦ broken e
      | _ ↦ passed frame_len rest
    ]

unfoldable pub repair_length : Option Gcm → Read → RepairStep
repair_length enc eof = at_end
repair_length enc unexpected_eof = torn
repair_length enc (full length_buf rest) =
    let frame_len = get32 length_buf in
    if ltb frame_len (min_len enc) || ltb max_frame_size frame_len
    then broken (invalid_frame_length frame_len)
    else repair_payload enc length_buf frame_len (read_full frame_len rest)

unfoldable pub repair_loop : ℕ → Option Gcm → ℕ → Bytes → Repair
repair_loop zero enc valid_offset r = out_of_fuel
repair_loop (suc fuel) enc valid_offset r = elim (repair_length enc (read_full 4 r)) [
  | at_end ↦ kept
  | torn ↦ truncated valid_offset
  | broken e ↦ refused e
  | passed frame_len rest ↦ repair_loop fuel enc (valid_offset + (4 + frame_len)) rest
]

unfoldable pub repair_wal_tail : Option Gcm → Bytes → Repair
unfolding repair_loop
repair_wal_tail enc file =
    if ltb (length file) 8
    then refused unsupported_format
    else if eqb (take 8 file) (wal_header enc)
    then repair_loop (suc (length file)) enc 8 (drop 8 file)
    else refused unsupported_format

-- The file behind `repairWALTail`, which `f.Truncate` cuts; none if the file was refused (or the fuel
-- ran out).
unfoldable pub repaired_file : Repair → Bytes → Option Bytes
repaired_file kept file = some file
repaired_file (truncated valid_offset) file = some (take valid_offset file)
repaired_file (refused e) file = none
repaired_file out_of_fuel file = none

unfoldable pub encode_record : Option Gcm → Bytes → WalRecord → Bytes
encode_record none nonce rec = encode_record_plain rec
encode_record (some gcm) nonce rec =
    let sealed = encrypt gcm nonce (drop 4 (encode_record_plain rec)) in
    put32 (length sealed) ++ sealed

-- The frames that the flusher writes one behind the other; each has a nonce of its own.
unfoldable pub write_all : Option Gcm → List (Bytes × WalRecord) → Bytes
write_all enc [] = []
write_all enc ((nonce, rec) ∷ recs) = encode_record enc nonce rec ++ write_all enc recs
