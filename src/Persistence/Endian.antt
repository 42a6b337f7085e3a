-- ===== src/Persistence/Endian.antt =====
-- Go's `binary.BigEndian` on 4 and 8 bytes. A reader's caller has checked the length.
use dbx_database_extreme.Base.{
  ℕ, ◌+◌, ◌*◌, ◌/◌, ◌%◌, ◌^◌, ◌<◌, ◌≡◌, refl, Bytes, [], ◌∷◌, ◌++◌, arith, length, All,
}

join32 : ℕ → ℕ → ℕ → ℕ → ℕ
join32 a b c d = a * 2 ^ 24 + b * 2 ^ 16 + c * 2 ^ 8 + d

-- `PutUint32(buf, uint32(v))`
unfoldable pub put32 : ℕ → Bytes
put32 v = (v / 2 ^ 24 % 256) ∷ (v / 2 ^ 16 % 256) ∷ (v / 2 ^ 8 % 256) ∷ (v % 256) ∷ []

unfoldable pub get32 : Bytes → ℕ
unfolding join32
get32 (a ∷ b ∷ c ∷ d ∷ r) = join32 a b c d
get32 _ = 0

-- `PutUint64(buf, v)`
unfoldable pub put64 : ℕ → Bytes
unfolding put32
put64 v = put32 (v / 2 ^ 32) ++ put32 (v % 2 ^ 32)

unfoldable pub get64 : Bytes → ℕ
unfolding join32
get64 (a ∷ b ∷ c ∷ d ∷ e ∷ f ∷ g ∷ h ∷ r) = join32 a b c d * 2 ^ 32 + join32 e f g h
get64 _ = 0

join32-bytes :
    (v : ℕ)
    → v < 2 ^ 32
    → join32 (v / 2 ^ 24 % 256) (v / 2 ^ 16 % 256) (v / 2 ^ 8 % 256) (v % 256) ≡ v
unfolding join32
join32-bytes v h = omega arith

pub get32-put32 : (v : ℕ) (r : Bytes) → v < 2 ^ 32 → get32 (put32 v ++ r) ≡ v
unfolding put32 get32
get32-put32 v r h = join32-bytes v h

pub get64-put64 : (v : ℕ) (r : Bytes) → v < 2 ^ 64 → get64 (put64 v ++ r) ≡ v
unfolding put64 get64
get64-put64 v r h =
    omega (arith, join32-bytes (v / 2 ^ 32) (omega arith), join32-bytes (v % 2 ^ 32) (omega arith))

pub length-put32 : (v : ℕ) → length (put32 v) ≡ 4
unfolding put32
length-put32 v = refl

pub length-put64 : (v : ℕ) → length (put64 v) ≡ 8
unfolding put64
length-put64 v = refl

pub get32_lt :
    (a b c d : ℕ) (r : Bytes)
    → All (λ x. x < 256) (a ∷ b ∷ c ∷ d ∷ [])
    → get32 (a ∷ b ∷ c ∷ d ∷ r) < 2 ^ 32
unfolding get32
get32_lt a b c d r h = omega arith
