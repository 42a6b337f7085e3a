-- ===== src/Persistence/Wal/Reopen.antt =====
-- What `OpenWAL` does with the file that a crash left: `repairWALTail`, and reading the whole file.
use dbx_database_extreme.Base.{
  ℕ, zero, suc, ◌+◌, ◌-◌, ◌≤◌, ◌<◌, ◌≡◌, refl, sym, Bool, true, false, ◌||◌, Bytes, Option, none,
  some, List, [], ◌∷◌, ◌++◌, arith, length, take, drop, ltb, ◌==◌, All, map, if◌then◌else◌,
  length-append, length-take, ap, ◌∙◌, Bool-cases, ==_iff, inl, inr, eqb_refl, take-append_exact,
}
use native.Mathlib.Nat.{add-zero}
use mathlib.Core.List.{append-nil, append_assoc}
use dbx_database_extreme.Persistence.Endian.{put32, get32, get32-put32, length-put32}
use dbx_database_extreme.Persistence.Wal.Encode.{WalRecord}
use dbx_database_extreme.Persistence.Wal.Decode.{frame_payload_torn, max_frame_size}
use dbx_database_extreme.Persistence.Wal.Scan.{
  finished, min_len, read_full, decode_frames, scan_records_mode, wal_header, kept, truncated,
  refused, at_end, torn, broken, passed, repair_payload, repair_length, repair_loop,
  repair_wal_tail, repaired_file, encode_record, write_all,
}
use dbx_database_extreme.Persistence.Wal.Frame.{
  IsStorable, payload, encode_record-payload, size_min, size_max, read_full-exact, read_full-short,
  read_full-nil, take-put32,
}
use dbx_database_extreme.Persistence.Wal.Recover.{
  restored, decode_frames-write_all, length-write_all,
}
use dbx_database_extreme.Security.Encryption.{Gcm}

module _ (enc : Option Gcm) where
  size_test :
      (n : ℕ)
      → min_len enc ≤ n
      → n ≤ max_frame_size
      → (ltb n (min_len enc) || ltb max_frame_size n) ≡ false
  size_test n lo hi = ground arith

  -- A frame of its own decodes.
  decode_frames-one :
      (nonce : Bytes) (rec : WalRecord)
      → IsStorable enc (nonce, rec)
      → decode_frames false enc (encode_record enc nonce rec)
        ≡ finished (restored (nonce, rec) ∷ [])
  unfolding write_all
  decode_frames-one nonce rec h =
      rw (sym (append-nil (encode_record enc nonce rec)))
        (decode_frames-write_all enc false ((nonce, rec) ∷ []) (h, tt))

  repair_length-put32 :
      (n : ℕ) (r : Bytes)
      → min_len enc ≤ n
      → n ≤ max_frame_size
      → repair_length enc (read_full 4 (put32 n ++ r))
        ≡ repair_payload enc (put32 n) n (read_full n r)
  unfolding repair_length
  repair_length-put32 n r lo hi =
      rw (read_full-exact 4 (put32 n) r (sym (length-put32 n)))
        (rw (get32_put32_self n (omega arith)) (rw (size_test n lo hi)))
    where
      get32_put32_self : (n : ℕ) → n < 4_294_967_296 → get32 (put32 n) ≡ n
      get32_put32_self n h = rw (sym (append-nil (put32 n))) (get32-put32 n [] h)

  module _ (nonce : Bytes) (rec : WalRecord) (h : IsStorable enc (nonce, rec)) where
    decode_frames-payload :
        decode_frames false enc (put32 (length (payload enc nonce rec)) ++ payload enc nonce rec)
        ≡ finished (restored (nonce, rec) ∷ [])
    decode_frames-payload =
        rw (sym (encode_record-payload enc nonce rec h.nonce)) (decode_frames-one nonce rec h)

    repair_length-frame :
        (r : Bytes)
        → repair_length enc (read_full 4 (encode_record enc nonce rec ++ r))
          ≡ passed (length (payload enc nonce rec)) r
    unfolding repair_payload
    repair_length-frame r = rw (encode_record-payload enc nonce rec h.nonce) (
        rw append_assoc (
          rw
            (repair_length-put32 _ _ (size_min true enc nonce rec h)
              (size_max true enc nonce rec h))
            (rw (read_full-exact _ (payload enc nonce rec) r refl)
              (rw (decode_frames-payload, repair_payload)))))

    repair_payload-torn :
        (m : ℕ)
        → m < length (payload enc nonce rec)
        → repair_payload enc
            (put32 (length (payload enc nonce rec)))
            (length (payload enc nonce rec))
            (read_full (length (payload enc nonce rec)) (take m (payload enc nonce rec)))
          ≡ (if m == 0 then broken frame_payload_torn else torn)
    unfolding repair_payload
    repair_payload-torn zero l = rw (read_full-nil (length (payload enc nonce rec)) l)
    repair_payload-torn (suc m) l =
        rw
          (read_full-short (length (payload enc nonce rec)) (take (suc m) (payload enc nonce rec))
            (omega (arith, length-take (suc m) (payload enc nonce rec)))
            (omega (arith, length-take (suc m) (payload enc nonce rec))))
          (ground arith)

    repair_length-torn :
        (k : ℕ)
        → k < 4 + length (payload enc nonce rec)
        → repair_length enc
            (read_full 4 (take k (put32 (length (payload enc nonce rec)) ++ payload enc nonce rec)))
          ≡ (if k == 0 then at_end else if k == 4 then broken frame_payload_torn else torn)
    repair_length-torn (suc (suc (suc (suc m)))) l = rw (take-put32 _ m (payload enc nonce rec)) (
        rw (repair_length-put32 _ _ (size_min true enc nonce rec h) (size_max true enc nonce rec h))
          (repair_payload-torn m (omega arith) ∙ ground arith))
    repair_length-torn zero l = unfold repair_length read_full in refl
    repair_length-torn (suc k) l =
        rw
          (read_full-short 4
            (take (suc k) (put32 (length (payload enc nonce rec)) ++ payload enc nonce rec))
            (omega (
              arith,
              length-append (put32 (length (payload enc nonce rec))) (payload enc nonce rec),
              length-put32 (length (payload enc nonce rec)),
              length-take (suc k) (put32 (length (payload enc nonce rec)) ++ payload enc nonce rec),
            ))
            (omega (
              arith,
              length-append (put32 (length (payload enc nonce rec))) (payload enc nonce rec),
              length-put32 (length (payload enc nonce rec)),
              length-take (suc k) (put32 (length (payload enc nonce rec)) ++ payload enc nonce rec),
            )))
          (unfold repair_length in ground arith)

    -- The loop passes a whole frame, and says what to do about a torn one.
    repair_loop-frame :
        (fuel offset : ℕ) (r : Bytes)
        → repair_loop (suc fuel) enc offset (encode_record enc nonce rec ++ r)
          ≡ repair_loop fuel enc (offset + (4 + length (payload enc nonce rec))) r
    unfolding repair_loop
    repair_loop-frame fuel offset r = rw (repair_length-frame r, repair_loop)

    repair_loop-torn :
        (fuel offset k : ℕ)
        → k < length (encode_record enc nonce rec)
        → repair_loop (suc fuel) enc offset (take k (encode_record enc nonce rec)) ≡ (
            if k == 0
            then kept
            else if k == 4
            then refused frame_payload_torn
            else truncated offset)
    unfolding repair_loop
    repair_loop-torn fuel offset k l = rw (encode_record-payload enc nonce rec h.nonce) (
        rw (repair_length-torn k within, repair_loop)
          (elim (Bool-cases (k == 0)) [
            | inl e ↦ rw e
            | inr e ↦ rw e (elim (Bool-cases (k == 4)) [ inl f ↦ rw f | inr f ↦ rw f ])
          ]))
      where
        within : k < 4 + length (payload enc nonce rec)
        within = omega (
          arith,
          ap length (encode_record-payload enc nonce rec h.nonce),
          length-append (put32 (length (payload enc nonce rec))) (payload enc nonce rec),
          length-put32 (length (payload enc nonce rec)),
        )

  repair_loop-write_all :
      (entries : List (Bytes × WalRecord)) (fuel rounds offset : ℕ) (tail : Bytes)
      → All (IsStorable enc) entries
      → fuel ≡ length entries + rounds
      → repair_loop fuel enc offset (write_all enc entries ++ tail)
        ≡ repair_loop rounds enc (offset + length (write_all enc entries)) tail
  unfolding write_all
  repair_loop-write_all [] fuel rounds offset tail h e =
      rw add-zero (ap (λ n. repair_loop n enc offset tail) (omega arith))
  repair_loop-write_all ((nonce, rec) ∷ entries) zero rounds offset tail h e = absurd (omega arith)
  repair_loop-write_all ((nonce, rec) ∷ entries) (suc fuel) rounds offset tail h e =
      rw (append_assoc (encode_record enc nonce rec) (write_all enc entries) tail) (
        repair_loop-frame nonce rec h.0 fuel offset (write_all enc entries ++ tail)
        ∙ repair_loop-write_all entries fuel rounds _ tail h.1 (omega arith)
        ∙ ap (λ n. repair_loop rounds enc n tail)
            (omega (
              arith,
              ap length (encode_record-payload enc nonce rec h.0.nonce),
              length-put32 (length (payload enc nonce rec)),
              length-append (put32 (length (payload enc nonce rec))) (payload enc nonce rec),
              length-append (encode_record enc nonce rec) (write_all enc entries),
            )))

  take-header : (r : Bytes) → take 8 (wal_header enc ++ r) ≡ wal_header enc
  take-header r = go enc
    where
      go : (c : Option Gcm) → take 8 (wal_header c ++ r) ≡ wal_header c
      go none = refl
      go (some gcm) = refl

  drop-header : (r : Bytes) → drop 8 (wal_header enc ++ r) ≡ r
  drop-header r = go enc
    where
      go : (c : Option Gcm) → drop 8 (wal_header c ++ r) ≡ r
      go none = refl
      go (some gcm) = refl

  length-header : (r : Bytes) → length (wal_header enc ++ r) ≡ 8 + length r
  length-header r = go enc
    where
      go : (c : Option Gcm) → length (wal_header c ++ r) ≡ 8 + length r
      go none = omega arith
      go (some gcm) = omega arith

  -- A segment that holds its header and the frames of storable records is read back to those
  -- records, in order.
  scan_records_mode-write_all :
      (partial : Bool) (entries : List (Bytes × WalRecord))
      → All (IsStorable enc) entries
      → scan_records_mode partial enc (wal_header enc ++ write_all enc entries)
        ≡ finished (map restored entries)
  unfolding scan_records_mode
  scan_records_mode-write_all partial entries h = rw (take-header (write_all enc entries)) (
      rw (eqb_refl (wal_header enc)) (
        rw (drop-header (write_all enc entries)) (
          rw (decode_frames-write_all enc partial entries h)
            (ground (arith, length-header (write_all enc entries))))))

  module _ (entries : List (Bytes × WalRecord)) (nonce : Bytes) (rec : WalRecord) (k : ℕ)
      (stored : All (IsStorable enc) entries) (last : IsStorable enc (nonce, rec))
      (cut : k < length (encode_record enc nonce rec)) where
    repair_loop-crash :
        (n : ℕ)
        → length entries ≤ n
        → repair_loop (suc n) enc 8 (write_all enc entries ++ take k (encode_record enc nonce rec))
          ≡ (if k == 0
              then kept
              else if k == 4
              then refused frame_payload_torn
              else truncated (8 + length (write_all enc entries)))
    repair_loop-crash n le =
        repair_loop-write_all entries (suc n) (suc (n - length entries)) 8
          (take k (encode_record enc nonce rec)) stored (omega arith)
        ∙ repair_loop-torn nonce rec last (n - length entries) (8 + length (write_all enc entries))
            k cut

    -- A crash leaves the first k bytes of one more frame behind the header and the frames of
    -- storable records, fewer than the whole frame. `OpenWAL` keeps the file if k is 0,
    -- refuses it if k is 4, and otherwise cuts it where the last whole frame ends.
    pub repair_wal_tail-torn :
        repair_wal_tail enc
          (wal_header enc ++ (write_all enc entries ++ take k (encode_record enc nonce rec)))
        ≡ (if k == 0
            then kept
            else if k == 4
            then refused frame_payload_torn
            else truncated (8 + length (write_all enc entries)))
    unfolding repair_wal_tail
    repair_wal_tail-torn =
        let tail = take k (encode_record enc nonce rec) in
        let len = length-header (write_all enc entries ++ tail) in
        let enough : length entries ≤ length (wal_header enc ++ (write_all enc entries ++ tail)) =
          omega (
            arith,
            len,
            length-append (write_all enc entries) tail,
            length-write_all enc entries stored,
          ) in
        rw (take-header (write_all enc entries ++ tail)) (
          rw (eqb_refl (wal_header enc)) (
            rw (drop-header (write_all enc entries ++ tail)) (
              rw
                (repair_loop-crash (length (wal_header enc ++ (write_all enc entries ++ tail)))
                  enough)
                (ground (arith, len)))))

    take-file :
        take
          (8 + length (write_all enc entries))
          (wal_header enc ++ (write_all enc entries ++ take k (encode_record enc nonce rec)))
        ≡ wal_header enc ++ write_all enc entries
    take-file =
        let tail = take k (encode_record enc nonce rec) in
        rw (sym (append_assoc (wal_header enc) (write_all enc entries) tail)) (
          take-append_exact (wal_header enc ++ write_all enc entries) tail _
            (sym (length-header (write_all enc entries))))

    -- What the repair leaves of the file, unless it refuses it.
    left_by_repair :
        (k == 4) ≡ false
        → repaired_file
            (repair_wal_tail enc
              (wal_header enc ++ (write_all enc entries ++ take k (encode_record enc nonce rec))))
            (wal_header enc ++ (write_all enc entries ++ take k (encode_record enc nonce rec)))
          ≡ some (wal_header enc ++ write_all enc entries)
    unfolding repaired_file
    left_by_repair whole = rw repair_wal_tail-torn (elim (Bool-cases (k == 0)) [
      | inl e ↦ rw e (
          ap some (
            ap
              (λ i.
                wal_header enc ++ (write_all enc entries ++ take i (encode_record enc nonce rec)))
              ((==_iff k 0).0 e)
            ∙ ap (λ t. wal_header enc ++ t) (append-nil (write_all enc entries))))
      | inr e ↦ rw (e, whole) (ap some take-file)
    ])

    -- A crash leaves the first k bytes of one more frame behind the header and the frames of storable
    -- records, fewer than the whole frame and not just the four bytes of its length. Then the file that
    -- `repairWALTail` leaves is read back, with a partial tail allowed or not, to the records before
    -- the torn frame.
    pub scan_records_mode-repair_wal_tail :
        (partial : Bool)
        → (k == 4) ≡ false
        → (left : Bytes) × (repaired_file
              (repair_wal_tail enc
                (wal_header enc ++ (write_all enc entries ++ take k (encode_record enc nonce rec))))
              (wal_header enc ++ (write_all enc entries ++ take k (encode_record enc nonce rec)))
            ≡ some left)
          × (scan_records_mode partial enc left ≡ finished (map restored entries))
    scan_records_mode-repair_wal_tail partial whole = (
      wal_header enc ++ write_all enc entries,
      left_by_repair whole,
      scan_records_mode-write_all partial entries stored,
    )
