-- ===== src/Protocol/Parser.antt =====
-- internal/protocol/parser.go. The reader is the list of the bytes that are still to come; it has the buffer
-- that `NewRESPParser` makes. A nil slice and the empty one are one here.
pub mod Fields
pub mod Line
pub mod Bounds
pub mod RoundTrip
use dbx_database_extreme.Base.{
  ℕ, zero, suc, ◌+◌, Bool, true, false, ◌&&◌, ◌||◌, not, Bytes, List, [], ◌∷◌, Option, none, some,
  length, take, drop, eqb, ltb, ◌==◌, ℤ, pos, negsuc, if◌then◌else◌,
}
use dbx_database_extreme.Query.Command.{Command}
use dbx_database_extreme.Query.Reply.{crlf}
use dbx_database_extreme.Util.Decimal.{parse_int}
use dbx_database_extreme.Protocol.Parser.Fields.{fields}

abbrev pub max_resp_array_items : ℕ
max_resp_array_items = 4_194_304

abbrev pub max_resp_bulk_bytes : ℕ
max_resp_bulk_bytes = 8_388_608

abbrev pub max_resp_line_bytes : ℕ
max_resp_line_bytes = 65_536

pub data ParseError : Type 0 where
  end_of_input line_limit array_limit bulk_limit missing_crlf empty_command empty_inline :
      ParseError
  invalid_integer : Bytes → ParseError
  invalid_count : ℤ → ParseError
  expected_bulk : ℕ → ParseError

pub data Parsed (A : Type 0) : Type 0 where
  parsed : A → Bytes → Parsed A
  rejected : ParseError → Parsed A

unfoldable pub and_then : {A B : Type 0} → Parsed A → (A → Bytes → Parsed B) → Parsed B
and_then (parsed a r) f = f a r
and_then (rejected e) f = rejected e

-- The bytes before the next newline, whether there is one, and the bytes behind it.
unfoldable pub up_to_newline : Bytes → Bytes × Bool × Bytes
up_to_newline [] = ([], false, [])
up_to_newline (c ∷ s) =
    let rest = up_to_newline s in if c == b'\n' then ([], true, s) else (c ∷ rest.0, rest.1, rest.2)

unfoldable pub is_eol : ℕ → Bool
is_eol c = c == b'\r' || c == b'\n'

-- `bytes.TrimRight(line, "\r\n")`.
unfoldable pub trim_right : Bytes → Bytes
unfolding is_eol
trim_right [] = []
trim_right (c ∷ s) = elim (trim_right s) [
  | [] ↦ if is_eol c then [] else c ∷ []
  | d ∷ t ↦ c ∷ d ∷ t
]

unfoldable pub ends_in_cr : Bytes → Bool
ends_in_cr [] = false
ends_in_cr (c ∷ []) = c == b'\r'
ends_in_cr (c ∷ d ∷ s) = ends_in_cr (d ∷ s)

-- How much of a line `bufio.Reader.ReadLine` returns, in all its fragments.
unfoldable pub line_length : Bytes → Bool → ℕ
unfolding ends_in_cr
line_length l ended = if ended && ends_in_cr l then length (drop 1 l) else length l

-- The stream ends in a line that fills the buffer: the next fragment is missing.
unfoldable pub is_cut_off : Bytes → Bool → Bool
unfolding ends_in_cr
is_cut_off l ended = not ended && (length l == max_resp_line_bytes) && not (ends_in_cr l)

unfoldable pub checked_line : Bytes → Bool → Bytes → Parsed Bytes
unfolding line_length is_cut_off trim_right
checked_line l ended r =
    if ltb max_resp_line_bytes (line_length l ended)
    then rejected line_limit
    else if is_cut_off l ended
    then rejected end_of_input
    else parsed (trim_right l) r

unfoldable pub read_line : Bytes → Parsed Bytes
unfolding up_to_newline checked_line
read_line [] = rejected end_of_input
read_line (c ∷ s) = let line = up_to_newline (c ∷ s) in checked_line line.0 line.1 line.2

unfoldable pub int_of : Bytes → Option ℤ → Bytes → Parsed ℤ
int_of line none r = rejected (invalid_integer line)
int_of line (some n) r = parsed n r

unfoldable pub read_int : Bytes → Parsed ℤ
unfolding and_then read_line int_of
read_int s = and_then (read_line s) (λ line r. int_of line (parse_int line) r)

-- A negative length is the nil string.
unfoldable pub bulk_of : ℤ → Bytes → Parsed Bytes
unfolding crlf
bulk_of (negsuc n) r = parsed [] r
bulk_of (pos n) r =
    if ltb max_resp_bulk_bytes n
    then rejected bulk_limit
    else if ltb (length r) (n + 2)
    then rejected end_of_input
    else if eqb (take 2 (drop n r)) crlf
    then parsed (take n r) (drop (n + 2) r)
    else rejected missing_crlf

unfoldable pub read_bulk_string : Bytes → Parsed Bytes
unfolding and_then read_int bulk_of
read_bulk_string [] = rejected end_of_input
read_bulk_string (b ∷ s) =
    if b == b'$' then and_then (read_int s) bulk_of else rejected (expected_bulk b)

-- The loop on i, of which n rounds are left.
unfoldable pub read_items : ℕ → Bytes → Parsed (List Bytes)
unfolding and_then read_bulk_string
read_items zero s = parsed [] s
read_items (suc n) s =
    and_then (read_bulk_string s)
      (λ bulk r. and_then (read_items n r) (λ args r'. parsed (bulk ∷ args) r'))

unfoldable pub command_of : ParseError → List Bytes → Bytes → Parsed Command
command_of e [] r = rejected e
command_of e (name ∷ args) r = parsed (record { name = name; args = args; client_id = 0 }) r

unfoldable pub array_of_count : ℤ → Bytes → Parsed Command
unfolding and_then read_items command_of
array_of_count (negsuc n) r = rejected (invalid_count (negsuc n))
array_of_count (pos zero) r = rejected (invalid_count (pos zero))
array_of_count (pos (suc n)) r =
    if ltb max_resp_array_items (suc n)
    then rejected array_limit
    else and_then (read_items (suc n) r) (command_of empty_command)

unfoldable pub read_array : Bytes → Parsed Command
unfolding and_then read_int array_of_count
read_array s = and_then (read_int s) array_of_count

unfoldable pub read_inline : Bytes → Parsed Command
unfolding and_then read_line fields command_of
read_inline s = and_then (read_line s) (λ line r. command_of empty_inline (fields line) r)

unfoldable pub read_command : Bytes → Parsed Command
unfolding read_array read_inline
read_command [] = rejected end_of_input
read_command (b ∷ s) = if b == b'*' then read_array s else read_inline (b ∷ s)
