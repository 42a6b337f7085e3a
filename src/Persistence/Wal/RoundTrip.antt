-- ===== src/Persistence/Wal/RoundTrip.antt =====
-- What `decode_frame` makes of an encoded record.
use dbx_database_extreme.Base.{
  ℕ, ◌+◌, ◌-◌, ◌^◌, ◌≤◌, ◌<◌, ◌≡◌, refl, Bytes, List, [], ◌∷◌, ◌++◌, arith, length, ltb, ◌==◌, ◌||◌,
  false, sym, ℤ, All, to_word, of_word, IsInt64, to_word-lt, of_word-to_word, take-append_exact,
  drop-append_exact, length-append, if◌then◌else◌,
}
use mathlib.Core.List.{append-nil, append_assoc}
use dbx_database_extreme.Persistence.Endian.{
  put32, put64, get32, get64, get32-put32, get64-put64, length-put32,
}
use dbx_database_extreme.Persistence.Wal.Crc.{crc32, crc32-lt}
use dbx_database_extreme.Persistence.Wal.Encode.{
  WalEffect, WalRecord, own_effect, expand_effects, body_len, encode_effect, encode_effects,
  encode_body,
}
use dbx_database_extreme.Persistence.Wal.Decode.{
  ok, err, invalid_effect_count, read_effect, decode_effect, decode_effects, of_effects,
  max_effects, max_frame_size, decode_transaction, decode_body, decode_frame,
}

abbrev IsEffect : WalEffect → Type 0
IsEffect e = (length e.key < 2 ^ 32) × (length e.value < 2 ^ 32) × IsInt64 e.expires_at

read_effect-fields :
    (e : WalEffect) (r : Bytes)
    → read_effect e.typ (length e.key) (length e.value) e.expires_at ((e.key ++ e.value) ++ r)
      ≡ ok (e, r)
unfolding read_effect
read_effect-fields e r = rw append_assoc (
    rw (take-append_exact e.key (e.value ++ r) (length e.key) refl) (
      rw (drop-append_exact e.key (e.value ++ r) (length e.key) refl) (
        rw (take-append_exact e.value r (length e.value) refl) (
          rw (drop-append_exact e.value r (length e.value) refl)
            (ground (arith, length-append e.key (e.value ++ r), length-append e.value r))))))

decode_effect-fields :
    (typ a b z : ℕ) (r : Bytes)
    → decode_effect (typ ∷ (put32 a ++ (put32 b ++ (put64 z ++ r))))
      ≡ read_effect typ
          (get32 (put32 a ++ (put32 b ++ (put64 z ++ r))))
          (get32 (put32 b ++ (put64 z ++ r)))
          (of_word (get64 (put64 z ++ r)))
          r
unfolding decode_effect put32 put64
decode_effect-fields typ a b z r = ground arith

encode_effect-append :
    (e : WalEffect) (r : Bytes)
    → encode_effect e ++ r
      ≡ e.typ
        ∷ (put32 (length e.key)
            ++ (put32 (length e.value)
                ++ (put64 (to_word e.expires_at) ++ ((e.key ++ e.value) ++ r))))
unfolding encode_effect put32 put64
encode_effect-append e r = refl

decode_effect-encode_effect :
    (e : WalEffect) (r : Bytes) → IsEffect e → decode_effect (encode_effect e ++ r) ≡ ok (e, r)
decode_effect-encode_effect e r h = rw (encode_effect-append e r) (
    rw (decode_effect-fields e.typ (length e.key) (length e.value) (to_word e.expires_at) _) (
      rw (get32-put32 (length e.key) _ h.0) (
        rw (get32-put32 (length e.value) _ h.1) (
          rw (get64-put64 (to_word e.expires_at) _ (to_word-lt e.expires_at))
            (rw (of_word-to_word e.expires_at h.2) (read_effect-fields e r))))))

decode_effects-encode_effects :
    (es : List WalEffect) (r : Bytes)
    → All IsEffect es
    → decode_effects (length es) (encode_effects es ++ r) ≡ ok (es, r)
unfolding decode_effects encode_effects
decode_effects-encode_effects [] r h = refl
decode_effects-encode_effects (e ∷ es) r h = rw append_assoc (
    rw (decode_effect-encode_effect e (encode_effects es ++ r) h.0)
      (rw (decode_effects-encode_effects es r h.1)))

-- The record that a frame brings back: its own fields are those of its first effect.
first_fields : WalRecord → List WalEffect → WalRecord
first_fields rec [] = rec
first_fields rec (e ∷ es) = record rec {
  typ = e.typ;
  key = e.key;
  value = e.value;
  ttl_nano = e.expires_at;
  effects = e ∷ es;
}

unfoldable pub normalize : WalRecord → WalRecord
unfolding first_fields
normalize rec = first_fields rec (expand_effects rec)

-- What a record must satisfy for its frame to be read back: the limits that `scanFrames` checks, and
-- the ranges of the Go types.
pub record IsEncodable (rec : WalRecord) : Type 0 where
  pub sequence : rec.sequence < 2 ^ 64
  pub timestamp : IsInt64 rec.timestamp
  pub count : length (expand_effects rec) ≤ max_effects
  pub frame : body_len (expand_effects rec) + 4 ≤ max_frame_size
  pub effects : All (λ e. IsInt64 e.expires_at) (expand_effects rec)

effects-IsEffect :
    (es : List WalEffect)
    → body_len es < 2 ^ 32
    → All (λ e. IsInt64 e.expires_at) es
    → All IsEffect es
unfolding body_len
effects-IsEffect [] b h = tt
effects-IsEffect (e ∷ es) b h =
    ((omega arith, omega arith, h.0), effects-IsEffect es (omega arith) h.1)

decode_transaction-encode_effects :
    (s : ℕ) (t : ℤ) (es : List WalEffect)
    → All IsEffect es
    → decode_transaction s t (length es) (encode_effects es) ≡ of_effects s t es
unfolding decode_transaction
decode_transaction-encode_effects s t es h =
    rw (sym (append-nil (encode_effects es))) (rw (decode_effects-encode_effects es [] h))

decode_body-fields :
    (s t c : ℕ) (r : Bytes)
    → decode_body (2 ∷ (put64 s ++ (put64 t ++ (put32 c ++ r)))) ≡ (
        let count = get32 (put32 c ++ r) in
        if count == 0 || ltb max_effects count
        then err (invalid_effect_count count)
        else decode_transaction
            (get64 (put64 s ++ (put64 t ++ (put32 c ++ r))))
            (of_word (get64 (put64 t ++ (put32 c ++ r))))
            count
            r)
unfolding decode_body put32 put64
decode_body-fields s t c r = ground arith

own_effect-cases :
    (rec : WalRecord) (l : List WalEffect)
    → (e : WalEffect) × (es : List WalEffect) × (own_effect rec l ≡ e ∷ es)
unfolding own_effect
own_effect-cases rec [] = (_, [], refl)
own_effect-cases rec (e ∷ es) = (e, es, refl)

-- A record always has an effect.
pub expand_effects-cases :
    (rec : WalRecord) → (e : WalEffect) × (es : List WalEffect) × (expand_effects rec ≡ e ∷ es)
unfolding expand_effects
expand_effects-cases rec = own_effect-cases rec rec.effects

of_effects-normalize :
    (rec : WalRecord)
    → of_effects rec.sequence rec.timestamp (expand_effects rec) ≡ ok (normalize rec)
unfolding of_effects normalize
of_effects-normalize rec =
    let (e, es, p) = expand_effects-cases rec in rw (p, of_effects, first_fields)

encode_body-fields :
    (rec : WalRecord)
    → encode_body rec
      ≡ 2
        ∷ (put64 rec.sequence
            ++ (put64 (to_word rec.timestamp)
                ++ (put32 (length (expand_effects rec)) ++ encode_effects (expand_effects rec))))
unfolding encode_body
encode_body-fields rec = refl

count_in_range : (n : ℕ) → 0 < n → n ≤ max_effects → (n == 0 || ltb max_effects n) ≡ false
count_in_range n h k = ground arith

module _ (rec : WalRecord) (h : IsEncodable rec) where
  count_positive : 0 < length (expand_effects rec)
  count_positive = let (e, es, p) = expand_effects-cases rec in rw p (omega arith)

  pub decode_body-encode_body : decode_body (encode_body rec) ≡ ok (normalize rec)
  decode_body-encode_body = rw (encode_body-fields rec) (
      rw (decode_body-fields rec.sequence (to_word rec.timestamp) (length (expand_effects rec)) _) (
        rw (get32-put32 (length (expand_effects rec)) _ (omega (arith, h.count))) (
          rw (count_in_range _ count_positive h.count) (
            rw (get64-put64 rec.sequence _ h.sequence) (
              rw (get64-put64 (to_word rec.timestamp) _ (to_word-lt rec.timestamp)) (
                rw (of_word-to_word rec.timestamp h.timestamp) (
                  rw
                    (decode_transaction-encode_effects _ _ _
                      (effects-IsEffect _ (omega (arith, h.frame)) h.effects))
                    (of_effects-normalize rec))))))))

  -- The payload of the frame that `encode_record_plain` writes decodes to the record.
  pub decode_frame-payload :
      decode_frame (encode_body rec ++ put32 (crc32 (encode_body rec))) ≡ ok (normalize rec)
  unfolding decode_frame
  decode_frame-payload =
      let body = encode_body rec in
      let size : length (body ++ put32 (crc32 body)) - 4 ≡ length body =
        omega (arith, length-append body (put32 (crc32 body)), length-put32 (crc32 body)) in
      rw size (
        rw (take-append_exact body (put32 (crc32 body)) (length body) refl) (
          rw (drop-append_exact body (put32 (crc32 body)) (length body) refl) (
            rw (sym (append-nil (put32 (crc32 body)))) (
              rw (get32-put32 (crc32 body) [] (crc32-lt body))
                (ground (arith, decode_body-encode_body))))))
