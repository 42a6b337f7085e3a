-- ===== src/Protocol/Parser/RoundTrip.antt =====
-- What a Writer writes as an array of bulk strings is read back as a command.
use dbx_database_extreme.Base.{
  ℕ, suc, ◌+◌, ◌≤◌, ◌<◌, ◌≡◌, refl, sym, ◌∙◌, ap, Bool, true, false, ◌&&◌, Bytes, List, [], ◌∷◌,
  ◌++◌, map, some, length, drop, take-append_exact, drop-append_exact, length-append, length-drop,
  length-map, eqb, ltb, ◌==◌, ℤ, pos, All, arith, Bool-cases, inl, inr,
}
use mathlib.Core.List.{append_assoc}
use dbx_database_extreme.Query.Reply.{
  crlf, Message, Frame, bulk, array, encode_frame, encode_frames, array_of, write_strings,
}
use dbx_database_extreme.Util.Decimal.{
  format_int, parse_int, parse_int-format_int, IsDigits, format_int-IsDigits, length-format_int,
}
use dbx_database_extreme.Protocol.Parser.{
  max_resp_array_items, max_resp_bulk_bytes, max_resp_line_bytes, parsed, and_then, up_to_newline,
  trim_right, is_eol, line_length, is_cut_off, ends_in_cr, checked_line, read_line, int_of,
  read_int, bulk_of, read_bulk_string, read_items, command_of, array_of_count, read_array,
  read_command,
}

up_to_newline-IsDigits :
    (s rest : Bytes)
    → IsDigits s
    → up_to_newline (s ++ crlf ++ rest) ≡ (s ++ b'\r' ∷ [], true, rest)
unfolding up_to_newline crlf
up_to_newline-IsDigits [] rest h = refl
up_to_newline-IsDigits (c ∷ s) rest h = elim (Bool-cases (c == b'\n')) [
  | inl e ↦ absurd (ground (arith, h.0))
  | inr e ↦ rw (e, up_to_newline-IsDigits s rest h.2) refl
]

trim_right_digit :
    (c : ℕ) (s t : Bytes) → IsDigits (c ∷ s) → trim_right t ≡ s → trim_right (c ∷ t) ≡ c ∷ s
unfolding trim_right is_eol
trim_right_digit c [] t h e = rw e (ground (arith, h.0))
trim_right_digit c (d ∷ s) t h e = rw e refl

trim_right-IsDigits : (s : Bytes) → IsDigits s → trim_right (s ++ b'\r' ∷ []) ≡ s
unfolding trim_right is_eol
trim_right-IsDigits [] h = refl
trim_right-IsDigits (c ∷ s) h = trim_right_digit c s (s ++ b'\r' ∷ []) h (trim_right-IsDigits s h.2)

line_length_small : (l : Bytes) (ended : Bool) → line_length l ended ≤ length l
unfolding line_length
line_length_small l ended = elim (Bool-cases (ended && ends_in_cr l)) [
  | inl e ↦ rw e (omega (arith, length-drop 1 l))
  | inr e ↦ rw e (omega arith)
]

checked_line_short : (l r : Bytes) → length l ≤ 21 → checked_line l true r ≡ parsed (trim_right l) r
unfolding checked_line is_cut_off
checked_line_short l r h = elim (Bool-cases (ltb max_resp_line_bytes (line_length l true))) [
  | inl e ↦ absurd (ground (arith, line_length_small l true, e, h))
  | inr e ↦ rw e refl
]

read_line-checked_line :
    (c : ℕ) (s l r : Bytes)
    → up_to_newline (c ∷ s) ≡ (l, true, r)
    → read_line (c ∷ s) ≡ checked_line l true r
unfolding read_line
read_line-checked_line c s l r e = ap (λ x. checked_line x.0 x.1 x.2) e

-- A number in its text on a line of its own.
read_int_line :
    (s rest : Bytes) (z : ℤ)
    → IsDigits s
    → length s ≤ 20
    → parse_int s ≡ some z
    → read_int (s ++ crlf ++ rest) ≡ parsed z rest
unfolding read_int and_then int_of parse_int
read_int_line [] rest z h small e = absurd (cc)
read_int_line (c ∷ s) rest z h small e =
    rw
      (
        read_line-checked_line c (s ++ crlf ++ rest) (c ∷ s ++ b'\r' ∷ []) rest
            (up_to_newline-IsDigits (c ∷ s) rest h),
        checked_line_short (c ∷ s ++ b'\r' ∷ []) rest
            (omega (arith, length-append {0} s (b'\r' ∷ []))),
        trim_right-IsDigits (c ∷ s) h,
      )
      (ap (λ o. int_of (c ∷ s) o rest) e)

read_int-format_int :
    (n : ℕ) (rest : Bytes)
    → n ≤ max_resp_bulk_bytes
    → read_int (format_int (pos n) ++ crlf ++ rest) ≡ parsed (pos n) rest
read_int-format_int n rest h =
    read_int_line (format_int (pos n)) rest (pos n) (format_int-IsDigits n)
      (omega (arith, length-format_int 6 n (omega arith)))
      (parse_int-format_int (pos n) (omega arith))

drop_behind : (b rest : Bytes) → drop (length b + 2) (b ++ (crlf ++ rest)) ≡ rest
unfolding crlf
drop_behind b rest =
    ap (drop (length b + 2)) (sym (append_assoc b crlf rest))
    ∙ drop-append_exact (b ++ crlf) rest (length b + 2) (omega (arith, length-append {0} b crlf))

bulk_of_exact :
    (b rest : Bytes)
    → length b ≤ max_resp_bulk_bytes
    → bulk_of (pos (length b)) (b ++ (crlf ++ rest)) ≡ parsed b rest
unfolding bulk_of crlf eqb
bulk_of_exact b rest h =
    let small : ltb max_resp_bulk_bytes (length b) ≡ false = ground (arith, h) in
    let enough : ltb (length (b ++ (crlf ++ rest))) (length b + 2) ≡ false =
      ground (arith, length-append {0} b (crlf ++ rest)) in
    rw
      (
        small,
        enough,
        drop-append_exact b (crlf ++ rest) (length b) refl,
        take-append_exact b (crlf ++ rest) (length b) refl,
        drop_behind b rest,
      )
      refl

read_bulk_string-bulk :
    (b rest : Bytes)
    → length b ≤ max_resp_bulk_bytes
    → read_bulk_string (b'$' ∷ format_int (pos (length b)) ++ crlf ++ (b ++ (crlf ++ rest)))
      ≡ parsed b rest
unfolding read_bulk_string and_then
read_bulk_string-bulk b rest h =
    rw (read_int-format_int (length b) (b ++ (crlf ++ rest)) h) (bulk_of_exact b rest h)

module _ (text : Message → Bytes) where
  encode_frame-bulk :
      (b rest : Bytes)
      → encode_frame text (bulk (some b)) ++ rest
        ≡ b'$' ∷ format_int (pos (length b)) ++ crlf ++ (b ++ (crlf ++ rest))
  unfolding encode_frame
  encode_frame-bulk b rest = simp append_assoc refl

  encode_frames-append :
      (f : Frame) (frames : List Frame) (rest : Bytes)
      → encode_frames text (f ∷ frames) ++ rest
        ≡ encode_frame text f ++ (encode_frames text frames ++ rest)
  unfolding encode_frames
  encode_frames-append f frames rest =
      append_assoc (encode_frame text f) (encode_frames text frames) rest

  encode_frame-array :
      (n : ℕ) (rest : Bytes)
      → encode_frame text (array (pos n)) ++ rest ≡ b'*' ∷ format_int (pos n) ++ crlf ++ rest
  unfolding encode_frame
  encode_frame-array n rest = refl

  read_items-encode_frames :
      (items : List Bytes) (rest : Bytes)
      → All (λ b. length b ≤ max_resp_bulk_bytes) items
      → read_items (length items) (encode_frames text (map bulk (map some items)) ++ rest)
        ≡ parsed items rest
  unfolding read_items and_then
  read_items-encode_frames [] rest h = unfold encode_frames in refl
  read_items-encode_frames (b ∷ items) rest h =
      let more = encode_frames text (map bulk (map some items)) in
      rw
        (
          encode_frames-append (bulk (some b)) (map bulk (map some items)) rest,
          encode_frame-bulk b (more ++ rest),
          read_bulk_string-bulk b (more ++ rest) h.0,
          read_items-encode_frames items rest h.1,
        )
        refl

  array_of_count-items :
      (name : Bytes) (args : List Bytes) (rest : Bytes)
      → length args < max_resp_array_items
      → All (λ b. length b ≤ max_resp_bulk_bytes) (name ∷ args)
      → array_of_count
          (pos (suc (length args)))
          (encode_frames text (map bulk (map some (name ∷ args))) ++ rest)
        ≡ parsed (record { name = name; args = args; client_id = 0 }) rest
  unfolding array_of_count and_then command_of
  array_of_count-items name args rest few h =
      let fits : ltb max_resp_array_items (suc (length args)) ≡ false = ground (arith, few) in
      rw (fits, read_items-encode_frames (name ∷ args) rest h) refl

  -- A command that is written as an array of bulk strings is read back, whatever bytes its name and arguments
  -- hold and whatever follows it, when the array and the strings are within the limits of the parser.
  pub read_command-encode_frames :
      (name : Bytes) (args : List Bytes) (rest : Bytes)
      → length args < max_resp_array_items
      → All (λ b. length b ≤ max_resp_bulk_bytes) (name ∷ args)
      → read_command (encode_frames text (write_strings (name ∷ args)) ++ rest)
        ≡ parsed (record { name = name; args = args; client_id = 0 }) rest
  unfolding read_command read_array and_then write_strings array_of
  read_command-encode_frames name args rest few h =
      let items = encode_frames text (map bulk (map some (name ∷ args))) in
      let many : length (map some (name ∷ args)) ≡ suc (length args) =
        length-map (name ∷ args) some in
      rw
        (
          many,
          encode_frames-append (array (pos (suc (length args)))) (map bulk (map some (name ∷ args)))
              rest,
          encode_frame-array (suc (length args)) (items ++ rest),
          read_int-format_int (suc (length args)) (items ++ rest) (omega (arith, few)),
        )
        (array_of_count-items name args rest few h)
