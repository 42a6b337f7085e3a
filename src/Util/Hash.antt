-- ===== src/Util/Hash.antt =====
-- internal/util/hash.go: the hashes that place a key in a shard and in a cluster slot. A `uint32` is
-- a number below 2 ^ 32, and every operation that can leave that range is cut back to it.

use Prim.Native.Nat.{bit_xor, bit_or}
use native.Mathlib.Nat.{mod-lt}
use dbx_database_extreme.Base.{
  ℕ, zero, suc, ◌+◌, ◌-◌, ◌*◌, ◌/◌, ◌%◌, ◌^◌, ◌<◌, ◌≡◌, refl, Bytes, [], ◌∷◌, arith, codes, length,
}

abbrev c1 : ℕ
c1 = 0xcc9e2d51

abbrev c2 : ℕ
c2 = 0x1b873593

-- `bits.RotateLeft32`
unfoldable pub rotate_left : ℕ → ℕ → ℕ
rotate_left x k = bit_or (x * 2 ^ k % 2 ^ 32) (x / 2 ^ (32 - k))

scramble : ℕ → ℕ
unfolding rotate_left
scramble k = rotate_left (k * c1 % 2 ^ 32) 15 * c2 % 2 ^ 32

mix_block : ℕ → ℕ → ℕ
unfolding scramble rotate_left
mix_block h k = (rotate_left (bit_xor h (scramble k)) 13 * 5 + 0xe6546b64) % 2 ^ 32

-- The blocks of four bytes, then the tail of at most three.
murmur_body : ℕ → Bytes → ℕ
unfolding mix_block
murmur_body h (a ∷ b ∷ c ∷ d ∷ r) =
    murmur_body (mix_block h (a + b * 2 ^ 8 + c * 2 ^ 16 + d * 2 ^ 24)) r
murmur_body h (a ∷ b ∷ c ∷ []) = bit_xor h (scramble (bit_xor (bit_xor (c * 2 ^ 16) (b * 2 ^ 8)) a))
murmur_body h (a ∷ b ∷ []) = bit_xor h (scramble (bit_xor (b * 2 ^ 8) a))
murmur_body h (a ∷ []) = bit_xor h (scramble a)
murmur_body h [] = h

avalanche : ℕ → ℕ
avalanche h0 =
    let h1 = bit_xor h0 (h0 / 2 ^ 16) * 0x85ebca6b % 2 ^ 32 in
    let h2 = bit_xor h1 (h1 / 2 ^ 13) * 0xc2b2ae35 % 2 ^ 32 in bit_xor h2 (h2 / 2 ^ 16)

unfoldable pub murmur32 : Bytes → ℕ → ℕ
unfolding murmur_body avalanche
murmur32 bytes seed = avalanche (bit_xor (murmur_body seed bytes) (length bytes % 2 ^ 32))

-- `numShards` is an `int`: what is not positive is 0 here. `% 2 ^ 32` is the `uint32` result.
unfoldable pub shard_index : Bytes → ℕ → ℕ
unfolding murmur32
shard_index key zero = 0
shard_index key (suc n) = murmur32 key 0 % 2 ^ 32 % suc n

-- The index is below the number of shards, if there are any.
pub shard_index-lt : (key : Bytes) (n : ℕ) → 0 < n → shard_index key n < n
unfolding shard_index
shard_index-lt key zero h = absurd (omega arith)
shard_index-lt key (suc n) h = mod-lt (murmur32 key 0 % 2 ^ 32) (omega arith)

-- Values that the reference implementation of Murmur3 (x86_32) gives.
murmur32_empty : murmur32 [] 0 ≡ 0
unfolding murmur32
murmur32_empty = refl

murmur32_abc : murmur32 (codes "abc") 0 ≡ 0xb3dd93fa
unfolding murmur32
murmur32_abc = refl

murmur32_hello : murmur32 (codes "Hello, world!") 0 ≡ 0xc0363e43
unfolding murmur32
murmur32_hello = refl
