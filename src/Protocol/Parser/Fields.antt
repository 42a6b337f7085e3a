-- ===== src/Protocol/Parser/Fields.antt =====
-- `bytes.Fields`: the words between white space, which is read as UTF-8.
pub mod Bounds
use dbx_database_extreme.Base.{
  ℕ, zero, suc, Bool, true, false, ◌&&◌, ◌||◌, Bytes, List, [], ◌∷◌, ◌++◌, leb, ◌==◌, if◌then◌else◌,
}

-- The white space of two and three bytes.
unfoldable pub is_space_2 : ℕ → ℕ → Bool
is_space_2 a b = a == 0xC2 && (b == 0x85 || b == 0xA0)

unfoldable pub is_space_3 : ℕ → ℕ → ℕ → Bool
is_space_3 a b c =
    (a == 0xE1 && b == 0x9A && c == 0x80)
    || (a == 0xE2 && b == 0x80 && (leb 0x80 c && leb c 0x8A || c == 0xA8 || c == 0xA9 || c == 0xAF))
    || (a == 0xE2 && b == 0x81 && c == 0x9F)
    || (a == 0xE3 && b == 0x80 && c == 0x80)

unfoldable pub is_space_1 : ℕ → Bool
is_space_1 c = leb 9 c && leb c 13 || c == 32

unfoldable pub space_width : Bytes → ℕ
unfolding is_space_1 is_space_2 is_space_3
space_width [] = 0
space_width (a ∷ []) = if is_space_1 a then 1 else 0
space_width (a ∷ b ∷ []) = if is_space_1 a then 1 else if is_space_2 a b then 2 else 0
space_width (a ∷ b ∷ c ∷ s) =
    if is_space_1 a then 1 else if is_space_2 a b then 2 else if is_space_3 a b c then 3 else 0

-- The words of a list of which a word, and then white space of some bytes, was read.
unfoldable pub close_word : Bytes → List Bytes → List Bytes
close_word [] ws = ws
close_word (c ∷ w) ws = (c ∷ w) ∷ ws

unfoldable pub fields_from : ℕ → Bytes → Bytes → List Bytes
unfolding space_width close_word
fields_from skip word [] = close_word word []
fields_from (suc skip) word (c ∷ s) = fields_from skip word s
fields_from zero word (c ∷ s) = elim (space_width (c ∷ s)) [
  | zero ↦ fields_from zero (word ++ c ∷ []) s
  | suc w ↦ close_word word (fields_from w [] s)
]

unfoldable pub fields : Bytes → List Bytes
unfolding fields_from
fields line = fields_from zero [] line
