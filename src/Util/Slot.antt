-- ===== src/Util/Slot.antt =====
-- internal/util/hash.go: the slot of a key in the cluster: CRC-16 of the key or of its hash tag. A
-- `uint16` is a number below 2 ^ 16, and every operation that can leave that range is cut back to it.
use Prim.Native.Nat.{bit_xor}
use dbx_database_extreme.Base.{
  ℕ, zero, suc, ◌+◌, ◌-◌, ◌*◌, ◌/◌, ◌%◌, ◌^◌, ◌<◌, ◌≡◌, ◌≢◌, refl, sym, ap, ◌∙◌, true, false,
  Option, none, some, Bytes, List, [], ◌∷◌, ◌++◌, arith, codes, length, take, drop, get_or, All,
  ◌==◌, ltb, if◌then◌else◌, take-append_exact, lt→ltb,
}

abbrev crc16_table : List ℕ
crc16_table =
    0x0000 ∷ 0x1021 ∷ 0x2042 ∷ 0x3063 ∷ 0x4084 ∷ 0x50a5 ∷ 0x60c6 ∷ 0x70e7 ∷ 0x8108 ∷ 0x9129 ∷ 0xa14a
    ∷ 0xb16b ∷ 0xc18c ∷ 0xd1ad ∷ 0xe1ce ∷ 0xf1ef ∷ 0x1231 ∷ 0x0210 ∷ 0x3273 ∷ 0x2252 ∷ 0x52b5
    ∷ 0x4294 ∷ 0x72f7 ∷ 0x62d6 ∷ 0x9339 ∷ 0x8318 ∷ 0xb37b ∷ 0xa35a ∷ 0xd3bd ∷ 0xc39c ∷ 0xf3ff
    ∷ 0xe3de ∷ 0x2462 ∷ 0x3443 ∷ 0x0420 ∷ 0x1401 ∷ 0x64e6 ∷ 0x74c7 ∷ 0x44a4 ∷ 0x5485 ∷ 0xa56a
    ∷ 0xb54b ∷ 0x8528 ∷ 0x9509 ∷ 0xe5ee ∷ 0xf5cf ∷ 0xc5ac ∷ 0xd58d ∷ 0x3653 ∷ 0x2672 ∷ 0x1611
    ∷ 0x0630 ∷ 0x76d7 ∷ 0x66f6 ∷ 0x5695 ∷ 0x46b4 ∷ 0xb75b ∷ 0xa77a ∷ 0x9719 ∷ 0x8738 ∷ 0xf7df
    ∷ 0xe7fe ∷ 0xd79d ∷ 0xc7bc ∷ 0x4864 ∷ 0x5845 ∷ 0x6826 ∷ 0x7807 ∷ 0x08e0 ∷ 0x18c1 ∷ 0x28a2
    ∷ 0x38c3 ∷ 0xc92c ∷ 0xd90d ∷ 0xe96e ∷ 0xf94f ∷ 0x89a8 ∷ 0x9989 ∷ 0xa9ea ∷ 0xb9cb ∷ 0x5a15
    ∷ 0x4a34 ∷ 0x7a57 ∷ 0x6a76 ∷ 0x1a91 ∷ 0x0ab0 ∷ 0x3ad3 ∷ 0x2af2 ∷ 0xdb1d ∷ 0xcb3c ∷ 0xfb5f
    ∷ 0xeb7e ∷ 0x9b99 ∷ 0x8bb8 ∷ 0xbbdb ∷ 0xabba ∷ 0x6ca6 ∷ 0x7c87 ∷ 0x4ce4 ∷ 0x5cc5 ∷ 0x2c22
    ∷ 0x3c03 ∷ 0x0c60 ∷ 0x1c41 ∷ 0xedae ∷ 0xfd8f ∷ 0xcdec ∷ 0xddcd ∷ 0xad2a ∷ 0xbd0b ∷ 0x8d68
    ∷ 0x9d49 ∷ 0x7e97 ∷ 0x6eb6 ∷ 0x5ed5 ∷ 0x4ef4 ∷ 0x3e13 ∷ 0x2e32 ∷ 0x1e51 ∷ 0x0e70 ∷ 0xff9f
    ∷ 0xefbe ∷ 0xdfdd ∷ 0xcffc ∷ 0xbf1b ∷ 0xaf3a ∷ 0x9f59 ∷ 0x8f78 ∷ 0x9188 ∷ 0x81a9 ∷ 0xb1ca
    ∷ 0xa1eb ∷ 0xd10c ∷ 0xc12d ∷ 0xf14e ∷ 0xe16f ∷ 0x1080 ∷ 0x00a1 ∷ 0x30c2 ∷ 0x20e3 ∷ 0x5004
    ∷ 0x4025 ∷ 0x7046 ∷ 0x6067 ∷ 0x83b9 ∷ 0x9398 ∷ 0xa3fb ∷ 0xb3da ∷ 0xc33d ∷ 0xd31c ∷ 0xe37f
    ∷ 0xf35e ∷ 0x02b1 ∷ 0x1290 ∷ 0x22f3 ∷ 0x32d2 ∷ 0x4235 ∷ 0x5214 ∷ 0x6277 ∷ 0x7256 ∷ 0xb5ea
    ∷ 0xa5cb ∷ 0x95a8 ∷ 0x8589 ∷ 0xf56e ∷ 0xe54f ∷ 0xd52c ∷ 0xc50d ∷ 0x34e2 ∷ 0x24c3 ∷ 0x14a0
    ∷ 0x0481 ∷ 0x7466 ∷ 0x6447 ∷ 0x5424 ∷ 0x4405 ∷ 0xa7db ∷ 0xb7fa ∷ 0x8799 ∷ 0x97b8 ∷ 0xe75f
    ∷ 0xf77e ∷ 0xc71d ∷ 0xd73c ∷ 0x26d3 ∷ 0x36f2 ∷ 0x0691 ∷ 0x16b0 ∷ 0x6657 ∷ 0x7676 ∷ 0x4615
    ∷ 0x5634 ∷ 0xd94c ∷ 0xc96d ∷ 0xf90e ∷ 0xe92f ∷ 0x99c8 ∷ 0x89e9 ∷ 0xb98a ∷ 0xa9ab ∷ 0x5844
    ∷ 0x4865 ∷ 0x7806 ∷ 0x6827 ∷ 0x18c0 ∷ 0x08e1 ∷ 0x3882 ∷ 0x28a3 ∷ 0xcb7d ∷ 0xdb5c ∷ 0xeb3f
    ∷ 0xfb1e ∷ 0x8bf9 ∷ 0x9bd8 ∷ 0xabbb ∷ 0xbb9a ∷ 0x4a75 ∷ 0x5a54 ∷ 0x6a37 ∷ 0x7a16 ∷ 0x0af1
    ∷ 0x1ad0 ∷ 0x2ab3 ∷ 0x3a92 ∷ 0xfd2e ∷ 0xed0f ∷ 0xdd6c ∷ 0xcd4d ∷ 0xbdaa ∷ 0xad8b ∷ 0x9de8
    ∷ 0x8dc9 ∷ 0x7c26 ∷ 0x6c07 ∷ 0x5c64 ∷ 0x4c45 ∷ 0x3ca2 ∷ 0x2c83 ∷ 0x1ce0 ∷ 0x0cc1 ∷ 0xef1f
    ∷ 0xff3e ∷ 0xcf5d ∷ 0xdf7c ∷ 0xaf9b ∷ 0xbfba ∷ 0x8fd9 ∷ 0x9ff8 ∷ 0x6e17 ∷ 0x7e36 ∷ 0x4e55
    ∷ 0x5e74 ∷ 0x2e93 ∷ 0x3eb2 ∷ 0x0ed1 ∷ 0x1ef0 ∷ []

unfoldable pub crc16_from : ℕ → Bytes → ℕ
crc16_from crc [] = crc
crc16_from crc (b ∷ bs) =
    crc16_from
      (bit_xor (crc * 2 ^ 8 % 2 ^ 16) (get_or crc16_table (bit_xor (crc / 2 ^ 8 % 2 ^ 8) b) 0)) bs

unfoldable pub crc16 : Bytes → ℕ
unfolding crc16_from
crc16 bs = crc16_from 0 bs

-- `{` and `}`
abbrev pub open_brace : ℕ
open_brace = 123

abbrev pub close_brace : ℕ
close_brace = 125

-- key[s+1 : i], where the `}` stands at i and the last `{` at s: an empty tag is none.
unfoldable pub tag_at : Bytes → ℕ → ℕ → Bytes
tag_at key s i = if ltb (s + 1) i then take (i - (s + 1)) (drop (s + 1) key) else key

-- The loop of `HashSlot` at i, and the key that it leaves.
unfoldable pub tagged : Bytes → ℕ → Option ℕ → Bytes → Bytes
unfolding tag_at
tagged key i start [] = key
tagged key i none (b ∷ bs) = elim (b == open_brace) [
  | true ↦ tagged key (suc i) (some i) bs
  | false ↦ tagged key (suc i) none bs
]
tagged key i (some s) (b ∷ bs) = elim (b == open_brace) [
  | true ↦ tagged key (suc i) (some i) bs
  | false ↦ elim (b == close_brace) [
    | true ↦ tag_at key s i
    | false ↦ tagged key (suc i) (some s) bs
  ]
]

unfoldable pub hash_slot : Bytes → ℕ
unfolding tagged crc16
hash_slot key = crc16 (tagged key 0 none key) % 16384

pub hash_slot-lt : (key : Bytes) → hash_slot key < 16384
unfolding hash_slot
hash_slot-lt key = omega arith

-- The check value of CRC-16/XMODEM.
crc16_check_value : crc16 (codes "123456789") ≡ 0x31c3
unfolding crc16
crc16_check_value = refl

-- What comes before the first `{` is passed over.
tagged_skip :
    (key : Bytes) (i : ℕ) (before r : Bytes)
    → All (λ b. b ≢ open_brace) before
    → tagged key i none (before ++ r) ≡ tagged key (i + length before) none r
unfolding tagged
tagged_skip key i [] r h = ap (λ j. tagged key j none r) (omega arith)
tagged_skip key i (b ∷ bs) r h = ground (arith, h, tagged_skip key (suc i) bs r)

-- So are the bytes of a tag.
tagged_within :
    (key : Bytes) (i s : ℕ) (tag r : Bytes)
    → All (λ b. (b ≢ open_brace) × (b ≢ close_brace)) tag
    → tagged key i (some s) (tag ++ r) ≡ tagged key (i + length tag) (some s) r
unfolding tagged
tagged_within key i s [] r h = ap (λ j. tagged key j (some s) r) (omega arith)
tagged_within key i s (b ∷ bs) r h = ground (arith, h, tagged_within key (suc i) s bs r)

tagged_whole :
    (key : Bytes) (i : ℕ) (r : Bytes)
    → All (λ b. (b ≢ open_brace) × (b ≢ close_brace)) r
    → tagged key i none r ≡ key
unfolding tagged
tagged_whole key i [] h = refl
tagged_whole key i (b ∷ bs) h = ground (arith, h, tagged_whole key (suc i) bs h.1)

drop_behind :
    (xs : Bytes) (y : ℕ) (ys : Bytes) (n : ℕ) → n ≡ length xs + 1 → drop n (xs ++ y ∷ ys) ≡ ys
drop_behind [] y ys zero h = absurd (omega arith)
drop_behind [] y ys (suc n) h = ap (λ m. drop m ys) {x = n} {y = 0} (omega arith)
drop_behind (x ∷ xs) y ys zero h = absurd (omega arith)
drop_behind (x ∷ xs) y ys (suc n) h = drop_behind xs y ys n (omega arith)

tag_at-tag :
    (before tag after : Bytes)
    → 0 < length tag
    → tag_at
        (before ++ open_brace ∷ (tag ++ close_brace ∷ after))
        (length before)
        (suc (length before) + length tag)
      ≡ tag
unfolding tag_at
tag_at-tag before tag after h =
    let s = length before in
    let rest = tag ++ close_brace ∷ after in
    rw
      (
        lt→ltb (s + 1) (suc s + length tag) (omega arith),
        drop_behind before open_brace rest (s + 1) refl,
      )
      (take-append_exact tag (close_brace ∷ after) _ (omega arith))

-- A key with a hash tag, which is the first pair of braces in it with something between them, has the slot of
-- the tag alone.
pub hash_slot-tag :
    (before tag after : Bytes)
    → All (λ b. b ≢ open_brace) before
    → All (λ b. (b ≢ open_brace) × (b ≢ close_brace)) tag
    → 0 < length tag
    → hash_slot (before ++ open_brace ∷ (tag ++ close_brace ∷ after)) ≡ hash_slot tag
unfolding hash_slot tagged
hash_slot-tag before tag after hb ht h =
    let key = before ++ open_brace ∷ (tag ++ close_brace ∷ after) in
    let s = length before in
    let opened : tagged key 0 none key ≡ tagged key (suc s) (some s) (tag ++ close_brace ∷ after) =
      tagged_skip key 0 before (open_brace ∷ (tag ++ close_brace ∷ after)) hb
      ∙ ap (λ i. tagged key i none (open_brace ∷ (tag ++ close_brace ∷ after))) (omega arith) in
    let found : tagged key 0 none key ≡ tag =
      opened
      ∙ tagged_within key (suc s) s tag (close_brace ∷ after) ht
      ∙ tag_at-tag before tag after h in
    ap (λ k. crc16 k % 16384) (found ∙ sym (tagged_whole tag 0 tag ht))
