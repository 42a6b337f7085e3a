-- ===== src/Security/Encryption.antt =====
-- internal/security/encryption.go. AES-256-GCM is Go's `crypto/cipher`: a parameter with its two
-- documented laws. The random nonce is an argument; the key has 32 bytes, so the two constructors of
-- the standard library do not fail.
use dbx_database_extreme.Base.{
  ℕ, ◌+◌, ◌≡◌, Bytes, Option, none, some, ◌++◌, arith, length, take, drop, ltb, length-append,
  take-append_exact, drop-append_exact, if◌then◌else◌,
}

pub record Gcm : Type 0 where
  pub seal : Bytes → Bytes → Bytes
  pub open_sealed : Bytes → Bytes → Option Bytes
  pub open-seal : (nonce plain : Bytes) → open_sealed nonce (seal nonce plain) ≡ some plain
  pub length-seal : (nonce plain : Bytes) → length (seal nonce plain) ≡ length plain + 16

abbrev pub nonce_size : ℕ
nonce_size = 12

-- The nonce stands before the sealed text.
unfoldable pub encrypt : Gcm → Bytes → Bytes → Bytes
encrypt gcm nonce plaintext = nonce ++ gcm.seal nonce plaintext

unfoldable pub decrypt : Gcm → Bytes → Option Bytes
decrypt gcm ciphertext =
    if ltb (length ciphertext) nonce_size
    then none
    else gcm.open_sealed (take nonce_size ciphertext) (drop nonce_size ciphertext)

module _ (gcm : Gcm) (nonce plain : Bytes) (sized : length nonce ≡ nonce_size) where
  -- Decrypting gives back the text that was encrypted under a nonce of 12 bytes.
  pub decrypt-encrypt : decrypt gcm (encrypt gcm nonce plain) ≡ some plain
  unfolding decrypt encrypt
  decrypt-encrypt =
      rw (take-append_exact nonce (gcm.seal nonce plain) nonce_size (sym_size sized)) (
        rw (drop-append_exact nonce (gcm.seal nonce plain) nonce_size (sym_size sized))
          (ground (arith, gcm.open-seal nonce plain, length-append nonce (gcm.seal nonce plain))))
    where
      sym_size : length nonce ≡ nonce_size → nonce_size ≡ length nonce
      sym_size h = omega arith

  pub length-encrypt : length (encrypt gcm nonce plain) ≡ length plain + 28
  unfolding encrypt
  length-encrypt =
      omega (arith, length-append nonce (gcm.seal nonce plain), gcm.length-seal nonce plain)
