-- ===== src/Persistence/Wal/Frame.antt =====
-- One frame as it is written and read back: `next_frame` on an encoded record, whole or torn.
use dbx_database_extreme.Base.{
  ℕ, zero, suc, ◌+◌, ◌≤◌, ◌<◌, ◌^◌, ◌≡◌, refl, sym, Bool, true, Bytes, Option, none, some, List, [],
  ◌∷◌, ◌++◌, arith, length, take, drop, ◌==◌, if◌then◌else◌, length-append, length-take, ap, ◌∙◌,
  take-append_exact, drop-append_exact,
}
use mathlib.Core.List.{append-nil, append_assoc}
use dbx_database_extreme.Persistence.Endian.{put32, get32-put32, length-put32}
use dbx_database_extreme.Persistence.Wal.Crc.{crc32}
use dbx_database_extreme.Persistence.Wal.Encode.{
  WalEffect, WalRecord, expand_effects, body_len, encode_body, encode_record_plain,
  length-encode_body,
}
use dbx_database_extreme.Persistence.Wal.Decode.{
  ok, max_frame_size, decode_frame, frame_payload_torn, invalid_frame_length,
}
use dbx_database_extreme.Persistence.Wal.RoundTrip.{IsEncodable, normalize, decode_frame-payload}
use dbx_database_extreme.Persistence.Wal.Scan.{
  full, eof, unexpected_eof, read_full, min_len, open_frame, end, bad, frame, after_payload,
  after_length, next_frame, encode_record,
}
use dbx_database_extreme.Security.Encryption.{
  Gcm, nonce_size, encrypt, decrypt-encrypt, length-encrypt,
}

-- The bytes that encryption adds to a frame.
abbrev pub overhead : Option Gcm → ℕ
overhead none = 0
overhead (some gcm) = 28

-- A record whose frame, sealed or not, is within the reader's limit.
pub record IsStorable (enc : Option Gcm) (entry : Bytes × WalRecord) : Type 0 where
  pub nonce : length entry.0 ≡ nonce_size
  pub encodable : IsEncodable entry.1
  pub frame : body_len (expand_effects entry.1) + 4 + overhead enc ≤ max_frame_size

body_len-ge : (es : List WalEffect) → 21 ≤ body_len es
unfolding body_len
body_len-ge [] = omega arith
body_len-ge (e ∷ es) = omega (arith, body_len-ge es)

plain : WalRecord → Bytes
plain rec = encode_body rec ++ put32 (crc32 (encode_body rec))

length-plain : (rec : WalRecord) → length (plain rec) ≡ body_len (expand_effects rec) + 4
unfolding plain
length-plain rec = omega (
  arith,
  length-append (encode_body rec) (put32 (crc32 (encode_body rec))),
  length-encode_body rec,
  length-put32 (crc32 (encode_body rec)),
)

pub payload : Option Gcm → Bytes → WalRecord → Bytes
payload none nonce rec = plain rec
payload (some gcm) nonce rec = encrypt gcm nonce (plain rec)

drop-put32 : (v : ℕ) (r : Bytes) → drop 4 (put32 v ++ r) ≡ r
unfolding put32
drop-put32 v r = refl

pub length-payload :
    (enc : Option Gcm) (nonce : Bytes) (rec : WalRecord)
    → length nonce ≡ nonce_size
    → length (payload enc nonce rec) ≡ body_len (expand_effects rec) + 4 + overhead enc
unfolding payload
length-payload none nonce rec h = omega (arith, length-plain rec)
length-payload (some gcm) nonce rec h =
    omega (arith, length-encrypt gcm nonce (plain rec) h, length-plain rec)

pub encode_record-payload :
    (enc : Option Gcm) (nonce : Bytes) (rec : WalRecord)
    → length nonce ≡ nonce_size
    → encode_record enc nonce rec ≡ put32 (length (payload enc nonce rec)) ++ payload enc nonce rec
unfolding encode_record encode_record_plain payload plain
encode_record-payload none nonce rec h = rw (length-plain rec)
encode_record-payload (some gcm) nonce rec h = rw drop-put32

open_frame-payload :
    (enc : Option Gcm) (nonce : Bytes) (rec : WalRecord)
    → length nonce ≡ nonce_size
    → open_frame enc (payload enc nonce rec) ≡ ok (plain rec)
unfolding payload open_frame
open_frame-payload none nonce rec h = refl
open_frame-payload (some gcm) nonce rec h =
    rw (decrypt-encrypt gcm nonce (plain rec) h, open_frame)
      (ground (arith, length-plain rec, body_len-ge (expand_effects rec)))

decode_frame-plain :
    (rec : WalRecord) → IsEncodable rec → decode_frame (plain rec) ≡ ok (normalize rec)
unfolding plain
decode_frame-plain rec h = decode_frame-payload rec h

pub read_full-exact : (k : ℕ) (a b : Bytes) → k ≡ length a → read_full k (a ++ b) ≡ full a b
unfolding read_full
read_full-exact k a b h =
    rw (take-append_exact a b k h)
      (rw (drop-append_exact a b k h) (ground (arith, length-append a b)))

pub read_full-short :
    (k : ℕ) (r : Bytes) → 0 < length r → length r < k → read_full k r ≡ unexpected_eof
unfolding read_full
read_full-short k r h l = ground arith

pub read_full-nil : (k : ℕ) → 0 < k → read_full k [] ≡ eof
unfolding read_full
read_full-nil k h = ground arith

module _ (partial : Bool) (enc : Option Gcm) where
  -- A frame length within the limits leads on to the payload.
  next_frame-put32 :
      (n : ℕ) (r : Bytes)
      → min_len enc ≤ n
      → n ≤ max_frame_size
      → next_frame partial enc (put32 n ++ r) ≡ after_payload partial enc (read_full n r)
  unfolding next_frame after_length
  next_frame-put32 n r lo hi =
      rw (read_full-exact 4 (put32 n) r (sym (length-put32 n)))
        (rw (sym (append-nil (put32 n))) (rw (get32-put32 n [] (omega arith)) (ground arith)))

  module _ (nonce : Bytes) (rec : WalRecord) (h : IsStorable enc (nonce, rec)) where
    size : length (payload enc nonce rec) ≡ body_len (expand_effects rec) + 4 + overhead enc
    size = length-payload enc nonce rec h.nonce

    pub size_min : min_len enc ≤ length (payload enc nonce rec)
    size_min = go enc size
      where
        go :
            (c : Option Gcm)
            → length (payload enc nonce rec) ≡ body_len (expand_effects rec) + 4 + overhead c
            → min_len c ≤ length (payload enc nonce rec)
        go none e = omega (arith, body_len-ge (expand_effects rec))
        go (some gcm) e = omega (arith, body_len-ge (expand_effects rec))

    pub size_max : length (payload enc nonce rec) ≤ max_frame_size
    size_max = omega (arith, size, h.frame)

    pub next_frame-encode_record :
        (r : Bytes)
        → next_frame partial enc (encode_record enc nonce rec ++ r) ≡ frame (normalize rec) r
    unfolding after_payload
    next_frame-encode_record r = rw (encode_record-payload enc nonce rec h.nonce) (
        rw append_assoc (
          rw (next_frame-put32 _ _ size_min size_max) (
            rw (read_full-exact _ (payload enc nonce rec) r refl) (
              rw (open_frame-payload enc nonce rec h.nonce)
                (rw (decode_frame-plain rec h.encodable))))))

pub take-put32 :
    (n m : ℕ) (p : Bytes) → take (suc (suc (suc (suc m)))) (put32 n ++ p) ≡ put32 n ++ take m p
unfolding put32
take-put32 n m p = refl

-- Fewer than four bytes of the length.
next_frame-short : (enc : Option Gcm) (r : Bytes) → length r < 4 → next_frame true enc r ≡ end
unfolding next_frame after_length read_full
next_frame-short enc r h = ground arith

module _ (enc : Option Gcm) (p : Bytes) (lo : min_len enc ≤ length p)
    (hi : length p ≤ max_frame_size) where
  -- `m` bytes of the payload are there.
  payload_torn :
      (m : ℕ)
      → m < length p
      → after_payload true enc (read_full (length p) (take m p))
        ≡ (if m == 0 then bad frame_payload_torn else end)
  unfolding after_payload
  payload_torn zero h = rw (read_full-nil (length p) h)
  payload_torn (suc m) h =
      rw
        (read_full-short (length p) (take (suc m) p) (omega (arith, length-take (suc m) p))
          (omega (arith, length-take (suc m) p)))
        (ground arith)

  torn :
      (k : ℕ)
      → k < 4 + length p
      → next_frame true enc (take k (put32 (length p) ++ p))
        ≡ (if k == 4 then bad frame_payload_torn else end)
  torn (suc (suc (suc (suc m)))) h = rw (take-put32 (length p) m p) (
      rw (next_frame-put32 true enc (length p) (take m p) lo hi)
        (payload_torn m (omega arith) ∙ ground arith))
  torn k h =
      next_frame-short enc _ (omega (arith, length-take k (put32 (length p) ++ p))) ∙ ground arith

-- A frame cut short ends the scan of the open segment, unless the cut is right behind the length.
pub next_frame-torn :
    (enc : Option Gcm) (nonce : Bytes) (rec : WalRecord)
    → IsStorable enc (nonce, rec)
    → (k : ℕ) → k < length (encode_record enc nonce rec)
    → next_frame true enc (take k (encode_record enc nonce rec))
      ≡ (if k == 4 then bad frame_payload_torn else end)
next_frame-torn enc nonce rec h k l = rw (encode_record-payload enc nonce rec h.nonce) (
    torn enc (payload enc nonce rec) (size_min true enc nonce rec h) (size_max true enc nonce rec h)
      k
      (omega (
        arith,
        ap length (encode_record-payload enc nonce rec h.nonce),
        length-append (put32 (length (payload enc nonce rec))) (payload enc nonce rec),
        length-put32 (length (payload enc nonce rec)),
      )))

pub length-encode_record :
    (enc : Option Gcm) (nonce : Bytes) (rec : WalRecord)
    → IsStorable enc (nonce, rec)
    → 4 < length (encode_record enc nonce rec)
length-encode_record enc nonce rec h = rw (encode_record-payload enc nonce rec h.nonce) (
    omega (
      arith,
      length-append (put32 (length (payload enc nonce rec))) (payload enc nonce rec),
      length-put32 (length (payload enc nonce rec)),
      length-payload enc nonce rec h.nonce,
    ))

pub next_frame-nil : (partial : Bool) (enc : Option Gcm) → next_frame partial enc [] ≡ end
unfolding next_frame after_length read_full
next_frame-nil partial enc = refl

-- A frame longer than the limit stops every scan, though it was written whole.
pub next_frame-oversized :
    (partial : Bool) (enc : Option Gcm) (n : ℕ) (r : Bytes)
    → max_frame_size < n
    → n < 2 ^ 32
    → next_frame partial enc (put32 n ++ r) ≡ bad (invalid_frame_length n)
unfolding next_frame after_length
next_frame-oversized partial enc n r lo hi =
    rw (read_full-exact 4 (put32 n) r (sym (length-put32 n)))
      (rw (sym (append-nil (put32 n))) (rw (get32-put32 n [] hi) (ground arith)))
