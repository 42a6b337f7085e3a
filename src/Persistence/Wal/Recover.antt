-- ===== src/Persistence/Wal/Recover.antt =====
-- Reading back what was written, whole or with a torn tail.
use dbx_database_extreme.Base.{
  ℕ, zero, suc, ◌+◌, ◌-◌, ◌^◌, ◌≤◌, ◌<◌, ◌≡◌, sym, Bool, true, Bytes, Option, List, [], ◌∷◌, ◌++◌,
  arith, length, take, ◌==◌, All, map, if◌then◌else◌, length-append, ap, ◌∙◌, Bool-cases, inl, inr,
}
use mathlib.Core.List.{append-nil, append_assoc}
use dbx_database_extreme.Persistence.Wal.Encode.{WalRecord, expand_effects, body_len}
use dbx_database_extreme.Persistence.Wal.Decode.{
  WalError, frame_payload_torn, invalid_frame_length, max_frame_size,
}
use dbx_database_extreme.Persistence.Wal.RoundTrip.{normalize}
use dbx_database_extreme.Persistence.Wal.Scan.{
  end, bad, next_frame, finished, failed, scan_frames, collect, decode_frames, encode_record,
  write_all,
}
use dbx_database_extreme.Persistence.Wal.Frame.{
  IsStorable, next_frame-encode_record, next_frame-torn, next_frame-nil, length-encode_record,
  overhead, encode_record-payload, length-payload, next_frame-oversized,
}
use dbx_database_extreme.Security.Encryption.{Gcm, nonce_size}

abbrev pub restored : Bytes × WalRecord → WalRecord
restored entry = normalize entry.1

module _ (enc : Option Gcm) where
  pub length-write_all :
      (entries : List (Bytes × WalRecord))
      → All (IsStorable enc) entries
      → length entries ≤ length (write_all enc entries)
  unfolding write_all
  length-write_all [] h = omega arith
  length-write_all ((nonce, rec) ∷ entries) h = omega (
    arith,
    length-append (encode_record enc nonce rec) (write_all enc entries),
    length-encode_record enc nonce rec h.0,
    length-write_all entries h.1,
  )

  -- The scan of written frames collects their records and goes on behind them.
  scan_frames-write_all :
      (partial : Bool) (entries : List (Bytes × WalRecord)) (fuel rounds : ℕ)
      (records : List WalRecord) (tail : Bytes)
      → All (IsStorable enc) entries
      → fuel ≡ length entries + rounds
      → scan_frames fuel partial enc collect records (write_all enc entries ++ tail)
        ≡ scan_frames rounds partial enc collect (records ++ map restored entries) tail
  unfolding write_all scan_frames
  scan_frames-write_all partial [] fuel rounds records tail h e =
      rw (append-nil records)
        (ap (λ n. scan_frames n partial enc collect records tail) (omega arith))
  scan_frames-write_all partial ((nonce, rec) ∷ entries) zero rounds records tail h e =
      absurd (omega arith)
  scan_frames-write_all partial ((nonce, rec) ∷ entries) (suc fuel) rounds records tail h e =
      rw (append_assoc (encode_record enc nonce rec) (write_all enc entries) tail) (
        rw
          (
            next_frame-encode_record partial enc nonce rec h.0 (write_all enc entries ++ tail),
            scan_frames,
          )
          (scan_frames-write_all partial entries fuel rounds (records ++ normalize rec ∷ []) tail
              h.1 (omega arith)
            ∙ rw append_assoc))

  -- What is left to scan behind the written frames, with a round to spare.
  decode_frames-append :
      (partial : Bool) (entries : List (Bytes × WalRecord)) (tail : Bytes)
      → All (IsStorable enc) entries
      → decode_frames partial enc (write_all enc entries ++ tail)
        ≡ scan_frames
            (suc (length (write_all enc entries ++ tail) - length entries))
            partial
            enc
            collect
            (map restored entries)
            tail
  unfolding decode_frames
  decode_frames-append partial entries tail h =
      scan_frames-write_all partial entries _ _ [] tail h
        (omega (arith, length-append (write_all enc entries) tail, length-write_all entries h))

  scan_frames-end :
      (partial : Bool) (n : ℕ) (records : List WalRecord) (r : Bytes)
      → next_frame partial enc r ≡ end
      → scan_frames (suc n) partial enc collect records r ≡ finished records
  unfolding scan_frames
  scan_frames-end partial n records r e = rw (e, scan_frames)

  scan_frames-bad :
      (partial : Bool) (n : ℕ) (records : List WalRecord) (r : Bytes) (w : WalError)
      → next_frame partial enc r ≡ bad w
      → scan_frames (suc n) partial enc collect records r ≡ failed w
  unfolding scan_frames
  scan_frames-bad partial n records r w e = rw (e, scan_frames)

  -- Reading the frames of storable records, plain or sealed, gives back the records in order,
  -- each with the effects that it stands for, whether or not a torn tail is allowed.
  pub decode_frames-write_all :
      (partial : Bool) (entries : List (Bytes × WalRecord))
      → All (IsStorable enc) entries
      → decode_frames partial enc (write_all enc entries) ≡ finished (map restored entries)
  decode_frames-write_all partial entries h = rw (sym (append-nil (write_all enc entries))) (
      decode_frames-append partial entries [] h
      ∙ scan_frames-end partial _ (map restored entries) [] (next_frame-nil partial enc))

  -- A crash leaves the first k bytes of one more frame behind the frames of storable records,
  -- fewer than the whole frame. Reading with a torn tail allowed gives back the records before
  -- it; if k is 4, it fails.
  decode_frames-torn :
      (entries : List (Bytes × WalRecord)) (nonce : Bytes) (rec : WalRecord) (k : ℕ)
      → All (IsStorable enc) entries
      → IsStorable enc (nonce, rec)
      → k < length (encode_record enc nonce rec)
      → decode_frames true enc (write_all enc entries ++ take k (encode_record enc nonce rec))
        ≡ (if k == 4 then failed frame_payload_torn else finished (map restored entries))
  decode_frames-torn entries nonce rec k h last l =
      decode_frames-append true entries (take k (encode_record enc nonce rec)) h
      ∙ elim (Bool-cases (k == 4)) [
        | inl cut ↦ rw cut (
            scan_frames-bad true _ _ _ frame_payload_torn
              (next_frame-torn enc nonce rec last k l ∙ rw cut))
        | inr other ↦
            rw other
              (scan_frames-end true _ _ _ (next_frame-torn enc nonce rec last k l ∙ rw other))
      ]

  -- A record whose frame is over the reader's limit, and shorter than 2 ^ 32 bytes, is
  -- written, and then stops every reading of the log, the records before it included.
  pub decode_frames-oversized :
      (partial : Bool) (entries : List (Bytes × WalRecord)) (nonce : Bytes) (rec : WalRecord)
      (tail : Bytes)
      → All (IsStorable enc) entries
      → length nonce ≡ nonce_size
      → max_frame_size < body_len (expand_effects rec) + 4 + overhead enc
      → body_len (expand_effects rec) + 4 + overhead enc < 2 ^ 32
      → decode_frames partial enc (write_all enc entries ++ (encode_record enc nonce rec ++ tail))
        ≡ failed (invalid_frame_length (body_len (expand_effects rec) + 4 + overhead enc))
  decode_frames-oversized partial entries nonce rec tail h sized lo hi =
      decode_frames-append partial entries (encode_record enc nonce rec ++ tail) h
      ∙ scan_frames-bad partial _ _ _ _ (
          rw (encode_record-payload enc nonce rec sized) (
            rw append_assoc (
              rw (length-payload enc nonce rec sized)
                (next_frame-oversized partial enc _ _ lo hi))))
