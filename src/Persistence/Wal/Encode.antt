-- ===== src/Persistence/Wal/Encode.antt =====
-- Records of the log and their encoding.
use dbx_database_extreme.Base.{
  ℕ, ◌+◌, ◌≡◌, refl, Bytes, List, [], ◌∷◌, ◌++◌, arith, length, length-append, ℤ, to_word,
}
use dbx_database_extreme.Persistence.Endian.{put32, put64}
use dbx_database_extreme.Persistence.Wal.Crc.{crc32}

-- The type of an effect is one byte.
abbrev pub record_set : ℕ
record_set = 1

abbrev pub record_delete : ℕ
record_delete = 2

abbrev pub record_expire : ℕ
record_expire = 3

pub record WalEffect : Type 0 where
  pub typ : ℕ
  pub key : Bytes
  pub value : Bytes
  pub expires_at : ℤ

-- The channel and the error that acknowledge a write are not part of what is encoded.
pub record WalRecord : Type 0 where
  pub typ : ℕ
  pub key : Bytes
  pub value : Bytes
  pub ttl_nano : ℤ
  pub timestamp : ℤ
  pub sequence : ℕ
  pub effects : List WalEffect

-- A record with no effects stands for the one that its own fields make.
unfoldable pub own_effect : WalRecord → List WalEffect → List WalEffect
own_effect rec [] =
    (record { typ = rec.typ; key = rec.key; value = rec.value; expires_at = rec.ttl_nano }) ∷ []
own_effect rec (e ∷ es) = e ∷ es

unfoldable pub expand_effects : WalRecord → List WalEffect
unfolding own_effect
expand_effects rec = own_effect rec rec.effects

unfoldable pub body_len : List WalEffect → ℕ
body_len [] = 1 + 8 + 8 + 4
body_len (e ∷ es) = (1 + 4 + 4 + 8 + length e.key + length e.value) + body_len es

unfoldable pub encode_effect : WalEffect → Bytes
encode_effect e =
    e.typ
    ∷ (put32 (length e.key)
        ++ (put32 (length e.value) ++ (put64 (to_word e.expires_at) ++ (e.key ++ e.value))))

unfoldable pub encode_effects : List WalEffect → Bytes
encode_effects [] = []
encode_effects (e ∷ es) = encode_effect e ++ encode_effects es

unfoldable pub encode_body : WalRecord → Bytes
encode_body rec =
    let effects = expand_effects rec in
    2
    ∷ (put64 rec.sequence
        ++ (put64 (to_word rec.timestamp) ++ (put32 (length effects) ++ encode_effects effects)))

-- Version 2: length, body, checksum of the body.
unfoldable pub encode_record_plain : WalRecord → Bytes
encode_record_plain rec =
    put32 (body_len (expand_effects rec) + 4)
    ++ (encode_body rec ++ put32 (crc32 (encode_body rec)))

length-encode_effect :
    (e : WalEffect) → length (encode_effect e) ≡ 17 + length e.key + length e.value
unfolding encode_effect put32 put64
length-encode_effect e = omega (arith, length-append e.key e.value)

length-encode_effects : (es : List WalEffect) → length (encode_effects es) + 21 ≡ body_len es
unfolding encode_effects body_len
length-encode_effects [] = refl
length-encode_effects (e ∷ es) = omega (
  arith,
  length-append (encode_effect e) (encode_effects es),
  length-encode_effect e,
  length-encode_effects es,
)

-- The length that the code adds up beforehand is the length of the body.
pub length-encode_body :
    (rec : WalRecord) → length (encode_body rec) ≡ body_len (expand_effects rec)
unfolding encode_body put32 put64
length-encode_body rec = omega (arith, length-encode_effects (expand_effects rec))
