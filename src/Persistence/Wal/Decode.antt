-- ===== src/Persistence/Wal/Decode.antt =====
-- One frame of the log: `scanFrames` between reading the payload and handing the record on.
use dbx_database_extreme.Base.{
  ℕ, zero, suc, ◌+◌, ◌-◌, Bytes, List, [], ◌∷◌, length, take, drop, ltb, ◌==◌, not, ◌||◌, get_or, ℤ,
  of_word, if◌then◌else◌,
}
use dbx_database_extreme.Persistence.Endian.{get32, get64}
use dbx_database_extreme.Persistence.Wal.Crc.{crc32}
use dbx_database_extreme.Persistence.Wal.Encode.{WalEffect, WalRecord}

pub data WalError : Type 0 where
  missing_header unsupported_format frame_length_torn : WalError
  invalid_frame_length : ℕ → WalError
  frame_payload_torn decrypt_failed crc_mismatch : WalError
  unsupported_version : ℕ → WalError
  truncated_transaction_header : WalError
  invalid_effect_count : ℕ → WalError
  truncated_effect_header invalid_effect_lengths : WalError
  trailing_bytes : ℕ → WalError

pub data Result {ℓ} (A : Type ℓ) : Type ℓ where
  ok : A → Result A
  err : WalError → Result A

infixl 5 ◌>>=◌
abbrev pub ◌>>=◌ {ℓ κ} : {A : Type ℓ} {B : Type κ} → Result A → (A → Result B) → Result B
ok a >>= f = f a
err e >>= f = err e

unfoldable pub read_effect : ℕ → ℕ → ℕ → ℤ → Bytes → Result (WalEffect × Bytes)
read_effect typ key_len value_len expires_at rest =
    if ltb (length rest) (key_len + value_len)
    then err invalid_effect_lengths
    else ok (
      record {
        typ = typ;
        key = take key_len rest;
        value = take value_len (drop key_len rest);
        expires_at = expires_at;
      },
      drop value_len (drop key_len rest),
    )

-- The bytes that `off` has not passed are the argument.
unfoldable pub decode_effect : Bytes → Result (WalEffect × Bytes)
decode_effect body =
    if ltb (length body) 17
    then err truncated_effect_header
    else read_effect (get_or body 0 0) (get32 (drop 1 body)) (get32 (drop 5 body))
        (of_word (get64 (drop 9 body))) (drop 17 body)

unfoldable pub decode_effects : ℕ → Bytes → Result (List WalEffect × Bytes)
decode_effects zero body = ok ([], body)
decode_effects (suc n) body = do
  (e, rest) ← decode_effect body
  (es, rest') ← decode_effects n rest
  ok (e ∷ es, rest')

-- The record's own fields are those of its first effect.
unfoldable pub of_effects : ℕ → ℤ → List WalEffect → Result WalRecord
of_effects sequence timestamp [] = err (invalid_effect_count 0)
of_effects sequence timestamp (e ∷ es) = ok (record {
  typ = e.typ;
  key = e.key;
  value = e.value;
  ttl_nano = e.expires_at;
  timestamp = timestamp;
  sequence = sequence;
  effects = e ∷ es;
})

abbrev pub max_frame_size : ℕ
max_frame_size = 67_108_864

abbrev pub max_effects : ℕ
max_effects = 1_000_000

-- What follows the header: the effects, and nothing else.
unfoldable pub decode_transaction : ℕ → ℤ → ℕ → Bytes → Result WalRecord
unfolding of_effects
decode_transaction sequence timestamp count body = decode_effects count body >>= λ r.
    if ltb 0 (length r.1)
    then err (trailing_bytes (length r.1))
    else of_effects sequence timestamp r.0

unfoldable pub decode_body : Bytes → Result WalRecord
decode_body body =
    if not (get_or body 0 0 == 2)
    then err (unsupported_version (get_or body 0 0))
    else if ltb (length body) 21
    then err truncated_transaction_header
    else let count = get32 (drop 17 body) in
      if count == 0 || ltb max_effects count
      then err (invalid_effect_count count)
      else decode_transaction (get64 (drop 1 body)) (of_word (get64 (drop 9 body))) count
          (drop 21 body)

-- The checksum is the last four bytes.
unfoldable pub decode_frame : Bytes → Result WalRecord
decode_frame frame =
    let body = take (length frame - 4) frame in
    if crc32 body == get32 (drop (length frame - 4) frame)
    then decode_body body
    else err crc_mismatch
