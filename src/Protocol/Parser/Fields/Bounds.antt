-- ===== src/Protocol/Parser/Fields/Bounds.antt =====
-- How many words a line has, and how long they are.
use dbx_database_extreme.Base.{
  ℕ, zero, suc, ◌+◌, ◌≤◌, Bytes, List, [], ◌∷◌, ◌++◌, length, length-append, All, arith,
}
use dbx_database_extreme.Protocol.Parser.Fields.{fields_from, close_word, space_width}

length-close_word : (w : Bytes) (ws : List Bytes) → length (close_word w ws) ≤ length w + length ws
unfolding close_word
length-close_word [] ws = omega arith
length-close_word (c ∷ w) ws = omega arith

close_word-All :
    (m : ℕ) (w : Bytes) (ws : List Bytes)
    → length w ≤ m
    → All (λ b. length b ≤ m) ws
    → All (λ b. length b ≤ m) (close_word w ws)
unfolding close_word
close_word-All m [] ws h a = a
close_word-All m (c ∷ w) ws h a = (h, a)

pub length-fields_from :
    (skip : ℕ) (word s : Bytes) → length (fields_from skip word s) ≤ length word + length s
unfolding fields_from
length-fields_from skip word [] = omega (arith, length-close_word word [])
length-fields_from (suc skip) word (c ∷ s) = omega (arith, length-fields_from skip word s)
length-fields_from zero word (c ∷ s) =
    elim (space_width (c ∷ s))
      as (λ x.
        length (elim x [
          | zero ↦ fields_from zero (word ++ c ∷ []) s
          | suc w ↦ close_word word (fields_from w [] s)
        ])
        ≤ length word + length (c ∷ s)) [
          | zero ↦
              omega
                (arith, length-fields_from zero (word ++ c ∷ []) s, length-append {0} word (c ∷ []))
          | suc w ↦
              omega (arith, length-fields_from w [] s, length-close_word word (fields_from w [] s))
        ]

pub fields_from-All :
    (m skip : ℕ) (word s : Bytes)
    → length word + length s ≤ m
    → All (λ b. length b ≤ m) (fields_from skip word s)
unfolding fields_from
fields_from-All m skip word [] h = close_word-All m word [] (omega arith) tt
fields_from-All m (suc skip) word (c ∷ s) h = fields_from-All m skip word s (omega arith)
fields_from-All m zero word (c ∷ s) h =
    elim (space_width (c ∷ s))
      as (λ x.
        All (λ b. length b ≤ m)
          (elim x [
            | zero ↦ fields_from zero (word ++ c ∷ []) s
            | suc w ↦ close_word word (fields_from w [] s)
          ])) [
            | zero ↦
                fields_from-All m zero (word ++ c ∷ []) s
                  (omega (arith, length-append {0} word (c ∷ [])))
            | suc w ↦
                close_word-All m word (fields_from w [] s) (omega arith)
                  (fields_from-All m w [] s (omega arith))
          ]

pub All-le :
    (m k : ℕ) (ws : List Bytes) → m ≤ k → All (λ b. length b ≤ m) ws → All (λ b. length b ≤ k) ws
All-le m k [] h a = tt
All-le m k (w ∷ ws) h a = (omega (arith, a.0), All-le m k ws h a.1)
