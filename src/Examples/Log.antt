-- ===== src/Examples/Log.antt =====
-- Concrete logs: two records, plain and sealed by a toy cipher.
use dbx_database_extreme.Base.{
  ℕ, ◌+◌, ◌-◌, ◌<◌, ◌≡◌, refl, ap, false, Bytes, Option, some, List, [], ◌∷◌, ◌++◌, arith, length,
  take, All, map, codes, replicate, length-append, length-replicate, take-append_exact, pos, negsuc,
}
use dbx_database_extreme.Security.Encryption.{Gcm, encrypt, decrypt, decrypt-encrypt}
use dbx_database_extreme.Persistence.Wal.Encode.{
  WalRecord, record_set, record_delete, expand_effects, body_len,
}
use dbx_database_extreme.Persistence.Wal.Decode.{invalid_frame_length}
use dbx_database_extreme.Persistence.Wal.Scan.{
  finished, failed, decode_frames, scan_records_mode, repair_wal_tail, repaired_file, truncated,
  wal_header, encode_record, write_all,
}
use dbx_database_extreme.Persistence.Wal.Frame.{
  IsStorable, payload, encode_record-payload, length-payload,
}
use dbx_database_extreme.Persistence.Endian.{put32, length-put32}
use dbx_database_extreme.Persistence.Wal.Recover.{
  restored, decode_frames-write_all, decode_frames-oversized,
}
use dbx_database_extreme.Persistence.Wal.Reopen.{
  repair_wal_tail-torn, scan_records_mode-repair_wal_tail,
}

abbrev nonce : Bytes
nonce = replicate 12 7

-- A sealed text is the text with sixteen zeros behind it.
abbrev toy_open : Bytes → Option Bytes
toy_open sealed = some (take (length sealed - 16) sealed)

toy_open-seal : (plain : Bytes) → toy_open (plain ++ replicate 16 0) ≡ some plain
toy_open-seal plain = rw (
    take-append_exact plain (replicate 16 0) (length (plain ++ replicate 16 0) - 16)
      (omega (arith, length-append plain (replicate 16 0))))

abbrev toy : Gcm
toy = record {
  seal = λ (n p : Bytes). p ++ replicate 16 0;
  open_sealed = λ (n c : Bytes). toy_open c;
  open-seal = λ (n p : Bytes). toy_open-seal p;
  length-seal = λ (n p : Bytes). length-append p (replicate 16 0);
}

abbrev set_record : WalRecord
set_record = record {
  typ = record_set;
  key = codes "city";
  value = codes "Delhi";
  ttl_nano = pos 0;
  timestamp = pos 1_700_000_000;
  sequence = 1;
  effects = [];
}

abbrev delete_record : WalRecord
delete_record = record {
  typ = record_delete;
  key = codes "old";
  value = [];
  ttl_nano = pos 0;
  timestamp = pos 1_700_000_001;
  sequence = 2;
  effects =
      (record { typ = record_delete; key = codes "old"; value = []; expires_at = pos 0 })
      ∷ (record { typ = record_set; key = codes "n"; value = codes "1"; expires_at = negsuc 0 })
      ∷ [];
}

abbrev written : List (Bytes × WalRecord)
written = (nonce, set_record) ∷ []

set_record-IsStorable : IsStorable (some toy) (nonce, set_record)
unfolding expand_effects body_len
set_record-IsStorable = record {
  nonce = refl;
  encodable = record {
    sequence = omega arith;
    timestamp = (omega arith, omega arith);
    count = omega arith;
    frame = omega arith;
    effects = ((omega arith, omega arith), tt);
  };
  frame = omega arith;
}

delete_record-IsStorable : IsStorable (some toy) (nonce, delete_record)
unfolding expand_effects body_len
delete_record-IsStorable = record {
  nonce = refl;
  encodable = record {
    sequence = omega arith;
    timestamp = (omega arith, omega arith);
    count = omega arith;
    frame = omega arith;
    effects = ((omega arith, omega arith), ((omega arith, omega arith), tt));
  };
  frame = omega arith;
}

written-IsStorable : All (IsStorable (some toy)) written
written-IsStorable = (set_record-IsStorable, tt)

cut_in_frame : 9 < length (encode_record (some toy) nonce delete_record)
unfolding expand_effects body_len
cut_in_frame = omega (
  arith,
  ap length (encode_record-payload (some toy) nonce delete_record refl),
  length-append (put32 (length (payload (some toy) nonce delete_record)))
      (payload (some toy) nonce delete_record),
  length-put32 (length (payload (some toy) nonce delete_record)),
  length-payload (some toy) nonce delete_record refl,
)

decode_frames-write_all_example :
    decode_frames false (some toy) (write_all (some toy) written) ≡ finished (map restored written)
decode_frames-write_all_example =
    decode_frames-write_all (some toy) false written written-IsStorable

repair_wal_tail-torn_example :
    repair_wal_tail (some toy) (
      wal_header (some toy)
      ++ (write_all (some toy) written ++ take 9 (encode_record (some toy) nonce delete_record)))
    ≡ truncated (8 + length (write_all (some toy) written))
repair_wal_tail-torn_example =
    repair_wal_tail-torn (some toy) written nonce delete_record 9 written-IsStorable
      delete_record-IsStorable cut_in_frame

-- A sealed log that breaks off nine bytes into its last frame.
abbrev broken_off : Bytes
broken_off =
    wal_header (some toy)
    ++ (write_all (some toy) written ++ take 9 (encode_record (some toy) nonce delete_record))

scan_records_mode-repair_wal_tail_example :
    (left : Bytes) × (repaired_file (repair_wal_tail (some toy) broken_off) broken_off ≡ some left)
    × (scan_records_mode false (some toy) left ≡ finished (map restored written))
scan_records_mode-repair_wal_tail_example =
    scan_records_mode-repair_wal_tail (some toy) written nonce delete_record 9 written-IsStorable
      delete_record-IsStorable cut_in_frame false refl

decrypt-encrypt_example : decrypt toy (encrypt toy nonce (codes "secret")) ≡ some (codes "secret")
decrypt-encrypt_example = decrypt-encrypt toy nonce (codes "secret") refl

-- A value of zeros.
unfoldable zeros : ℕ → Bytes
zeros n = replicate n 0

length-zeros : (n : ℕ) → length (zeros n) ≡ n
unfolding zeros
length-zeros n = length-replicate {A = ℕ} n 0

unfoldable zeros_record : ℕ → WalRecord
zeros_record n = record set_record { value = zeros n }

zeros_record-body_len : (n : ℕ) → body_len (expand_effects (zeros_record n)) ≡ 42 + n
unfolding expand_effects body_len zeros_record
zeros_record-body_len n = omega (arith, length-zeros n)

-- A value of 64 MB is over the reader's limit.
decode_frames-oversized_example :
    decode_frames false (some toy) (
      write_all (some toy) written
      ++ (encode_record (some toy) nonce (zeros_record 67_108_864) ++ []))
    ≡ failed (invalid_frame_length (body_len (expand_effects (zeros_record 67_108_864)) + 4 + 28))
decode_frames-oversized_example =
    decode_frames-oversized (some toy) false written nonce (zeros_record 67_108_864) []
      written-IsStorable refl (omega (arith, zeros_record-body_len 67_108_864))
      (omega (arith, zeros_record-body_len 67_108_864))
