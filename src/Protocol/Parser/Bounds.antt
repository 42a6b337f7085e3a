-- ===== src/Protocol/Parser/Bounds.antt =====
-- How large what is parsed can be, and that each command takes bytes from the stream.
use dbx_database_extreme.Base.{
  ℕ, zero, suc, ◌+◌, ◌≤◌, ◌<◌, ◌≡◌, refl, Bool, ◌&&◌, Bytes, List, [], ◌∷◌, Option, none, some,
  length, take, drop, length-take, length-drop, eqb, ltb, ◌==◌, ℤ, pos, negsuc, All, arith,
  Bool-cases, inl, inr,
}
use dbx_database_extreme.Query.Command.{Command}
use dbx_database_extreme.Query.Reply.{crlf}
use dbx_database_extreme.Util.Decimal.{parse_int}
use dbx_database_extreme.Protocol.Parser.Fields.{fields, fields_from}
use dbx_database_extreme.Protocol.Parser.Fields.Bounds.{length-fields_from, fields_from-All, All-le}
use dbx_database_extreme.Protocol.Parser.{
  max_resp_array_items, max_resp_bulk_bytes, max_resp_line_bytes, Parsed, parsed, rejected,
  and_then, up_to_newline, trim_right, line_length, is_cut_off, ends_in_cr, checked_line, read_line,
  int_of, read_int, bulk_of, read_bulk_string, read_items, command_of, array_of_count, read_array,
  read_inline, read_command, ParseError,
}

-- What is parsed, if anything is.
abbrev pub Gives : {A : Type 0} → (A → Bytes → Type 0) → Parsed A → Type 0
Gives P (parsed a r) = P a r
Gives P (rejected e) = Unit

Gives-and_then :
    {A B : Type 0} (P : A → Bytes → Type 0) (Q : B → Bytes → Type 0) (m : Parsed A)
    (f : A → Bytes → Parsed B)
    → Gives P m
    → ((a : A) (r : Bytes) → P a r → Gives Q (f a r))
    → Gives Q (and_then m f)
unfolding and_then
Gives-and_then P Q (parsed a r) f h g = g a r h
Gives-and_then P Q (rejected e) f h g = tt

length-up_to_newline :
    (s : Bytes) → length (up_to_newline s).0 + length (up_to_newline s).2 ≤ length s
unfolding up_to_newline
length-up_to_newline [] = omega arith
length-up_to_newline (c ∷ s) = elim (Bool-cases (c == b'\n')) [
  | inl e ↦ rw e (omega arith)
  | inr e ↦ rw e (omega (arith, length-up_to_newline s))
]

up_to_newline_shorter : (c : ℕ) (s : Bytes) → length (up_to_newline (c ∷ s)).2 < length (c ∷ s)
unfolding up_to_newline
up_to_newline_shorter c s = elim (Bool-cases (c == b'\n')) [
  | inl e ↦ rw e (omega arith)
  | inr e ↦ rw e (omega (arith, length-up_to_newline s))
]

length-trim_right : (s : Bytes) → length (trim_right s) ≤ length s
unfolding trim_right
length-trim_right [] = omega arith
length-trim_right (c ∷ s) = ground (arith, length-trim_right s)

line_length_le : (l : Bytes) (ended : Bool) → length l ≤ suc (line_length l ended)
unfolding line_length
line_length_le l ended = elim (Bool-cases (ended && ends_in_cr l)) [
  | inl e ↦ rw e (omega (arith, length-drop 1 l))
  | inr e ↦ rw e (omega arith)
]

abbrev IsLine : Bytes → Bytes → Bytes → Type 0
IsLine s line r = (length line ≤ suc max_resp_line_bytes) × (length r < length s)

checked_line-IsLine :
    (s l : Bytes) (ended : Bool) (r : Bytes)
    → length r < length s
    → Gives (IsLine s) (checked_line l ended r)
unfolding checked_line
checked_line-IsLine s l ended r h =
    elim (Bool-cases (ltb max_resp_line_bytes (line_length l ended))) [
      | inl e ↦ rw e tt
      | inr e ↦ elim (Bool-cases (is_cut_off l ended)) [
        | inl f ↦ rw (e, f) tt
        | inr f ↦ rw (e, f) (ground (arith, e, length-trim_right l, line_length_le l ended), h)
      ]
    ]

read_line-IsLine : (s : Bytes) → Gives (IsLine s) (read_line s)
unfolding read_line
read_line-IsLine [] = tt
read_line-IsLine (c ∷ s) =
    checked_line-IsLine (c ∷ s) (up_to_newline (c ∷ s)).0 (up_to_newline (c ∷ s)).1
      (up_to_newline (c ∷ s)).2 (up_to_newline_shorter c s)

int_of-Gives :
    (s line : Bytes) (n : Option ℤ) (r : Bytes)
    → length r < length s
    → Gives (λ z r'. length r' < length s) (int_of line n r)
unfolding int_of
int_of-Gives s line none r h = tt
int_of-Gives s line (some n) r h = h

read_int-Gives : (s : Bytes) → Gives (λ z r. length r < length s) (read_int s)
unfolding read_int
read_int-Gives s =
    Gives-and_then (IsLine s) (λ z r. length r < length s) (read_line s)
      (λ line r. int_of line (parse_int line) r) (read_line-IsLine s)
      (λ line r h. int_of-Gives s line (parse_int line) r h.1)

abbrev IsBulk : Bytes → Bytes → Bytes → Type 0
IsBulk s bulk r = (length bulk ≤ max_resp_bulk_bytes) × (length r < length s)

bulk_of-IsBulk :
    (s : Bytes) (z : ℤ) (r : Bytes) → length r < length s → Gives (IsBulk s) (bulk_of z r)
unfolding bulk_of
bulk_of-IsBulk s (negsuc n) r h = (omega arith, h)
bulk_of-IsBulk s (pos n) r h = elim (Bool-cases (ltb max_resp_bulk_bytes n)) [
  | inl e ↦ rw e tt
  | inr e ↦ elim (Bool-cases (ltb (length r) (n + 2))) [
    | inl f ↦ rw (e, f) tt
    | inr f ↦ elim (Bool-cases (eqb (take 2 (drop n r)) crlf)) [
      | inl g ↦
          rw (e, f, g) (ground (arith, e, length-take n r), omega (arith, h, length-drop (n + 2) r))
      | inr g ↦ rw (e, f, g) tt
    ]
  ]
]

read_bulk_string-IsBulk : (s : Bytes) → Gives (IsBulk s) (read_bulk_string s)
unfolding read_bulk_string
read_bulk_string-IsBulk [] = tt
read_bulk_string-IsBulk (b ∷ s) = elim (Bool-cases (b == b'$')) [
  | inl e ↦ rw e (
      Gives-and_then (λ z r. length r < length s) (IsBulk (b ∷ s)) (read_int s) bulk_of
        (read_int-Gives s) (λ z r h. bulk_of-IsBulk (b ∷ s) z r (omega (arith, h))))
  | inr e ↦ rw e tt
]

abbrev IsItems : ℕ → Bytes → List Bytes → Bytes → Type 0
IsItems n s items r =
    (length items ≡ n) × All (λ b. length b ≤ max_resp_bulk_bytes) items × (length r ≤ length s)

read_items-IsItems : (n : ℕ) (s : Bytes) → Gives (IsItems n s) (read_items n s)
unfolding read_items
read_items-IsItems zero s = (refl, tt, omega arith)
read_items-IsItems (suc n) s =
    Gives-and_then (IsBulk s) (IsItems (suc n) s) (read_bulk_string s)
      (λ bulk r. and_then (read_items n r) (λ args r'. parsed (bulk ∷ args) r'))
      (read_bulk_string-IsBulk s)
      (λ bulk r h.
        Gives-and_then (IsItems n r) (IsItems (suc n) s) (read_items n r)
          (λ args r'. parsed (bulk ∷ args) r') (read_items-IsItems n r)
          (λ args r' k. (omega (arith, k.0), (h.0, k.1), omega (arith, k.2, h.1))))

-- A command of a bounded number of bounded strings, which took bytes.
abbrev pub IsBounded : Bytes → Command → Bytes → Type 0
IsBounded s cmd r =
    (length cmd.args < max_resp_array_items)
    × All (λ b. length b ≤ max_resp_bulk_bytes) (cmd.name ∷ cmd.args)
    × (length r < length s)

command_of-IsBounded :
    (e : ParseError) (s : Bytes) (items : List Bytes) (r : Bytes)
    → length items ≤ max_resp_array_items
    → All (λ b. length b ≤ max_resp_bulk_bytes) items
    → length r < length s
    → Gives (IsBounded s) (command_of e items r)
unfolding command_of
command_of-IsBounded e s [] r h a k = tt
command_of-IsBounded e s (name ∷ args) r h a k = (omega arith, a, k)

array_of_count-IsBounded :
    (s : Bytes) (z : ℤ) (r : Bytes) → length r < length s → Gives (IsBounded s) (array_of_count z r)
unfolding array_of_count
array_of_count-IsBounded s (negsuc n) r h = tt
array_of_count-IsBounded s (pos zero) r h = tt
array_of_count-IsBounded s (pos (suc n)) r h =
    elim (Bool-cases (ltb max_resp_array_items (suc n))) [
      | inl e ↦ rw e tt
      | inr e ↦ rw e (
          Gives-and_then (IsItems (suc n) r) (IsBounded s) (read_items (suc n) r)
            (command_of ParseError.empty_command) (read_items-IsItems (suc n) r)
            (λ items r' k.
              command_of-IsBounded ParseError.empty_command s items r' (ground (arith, e, k.0)) k.1
                (omega (arith, k.2, h))))
    ]

read_inline-IsBounded : (s : Bytes) → Gives (IsBounded s) (read_inline s)
unfolding read_inline fields
read_inline-IsBounded s =
    Gives-and_then (IsLine s) (IsBounded s) (read_line s)
      (λ line r. command_of ParseError.empty_inline (fields line) r) (read_line-IsLine s)
      (λ line r h.
        command_of-IsBounded ParseError.empty_inline s (fields_from zero [] line) r
          (omega (arith, h.0, length-fields_from zero [] line))
          (All-le (length line) max_resp_bulk_bytes (fields_from zero [] line) (omega (arith, h.0))
            (fields_from-All (length line) zero [] line (omega arith)))
          h.1)

-- A command that is parsed has fewer than 4,194,304 arguments, its name and each of its arguments have at most
-- 8 MiB, and at least one byte was taken from the stream for it, whatever the stream holds.
pub read_command-IsBounded : (s : Bytes) → Gives (IsBounded s) (read_command s)
unfolding read_command read_array
read_command-IsBounded [] = tt
read_command-IsBounded (b ∷ s) = elim (Bool-cases (b == b'*')) [
  | inl e ↦ rw e (
      Gives-and_then (λ z r. length r < length s) (IsBounded (b ∷ s)) (read_int s) array_of_count
        (read_int-Gives s) (λ z r h. array_of_count-IsBounded (b ∷ s) z r (omega (arith, h))))
  | inr e ↦ rw e (read_inline-IsBounded (b ∷ s))
]
