-- ===== src/Persistence/Wal/Crc.antt =====
-- Go's `crc32.ChecksumIEEE`: the reflected polynomial 0xEDB88320, bit by bit.
use Prim.Native.Nat.{bit_and, bit_xor}
use dbx_database_extreme.Base.{
  ℕ, zero, suc, ◌/◌, ◌%◌, ◌^◌, ◌<◌, ◌≡◌, refl, Bytes, [], ◌∷◌, arith, codes, ◌==◌, if◌then◌else◌,
}

shift_bits : ℕ → ℕ → ℕ
shift_bits zero c = c
shift_bits (suc n) c = shift_bits n (if bit_and c 1 == 1 then bit_xor (c / 2) 0xedb88320 else c / 2)

update : ℕ → Bytes → ℕ
unfolding shift_bits
update c [] = c
update c (b ∷ bs) = update (shift_bits 8 (bit_xor c b)) bs

-- A `uint32`.
unfoldable pub crc32 : Bytes → ℕ
unfolding update
crc32 bs = bit_xor (update 0xffffffff bs) 0xffffffff % 2 ^ 32

pub crc32-lt : (bs : Bytes) → crc32 bs < 2 ^ 32
unfolding crc32
crc32-lt bs = omega arith

crc32_check_value : crc32 (codes "123456789") ≡ 0xcbf43926
unfolding crc32
crc32_check_value = refl
