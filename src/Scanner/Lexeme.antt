-- ===== src/Scanner/Lexeme.antt =====
-- src/app/scanner.cxx: `scan_number`, `scan_string`, `scan_identifier` and the two comments, with
-- the character classes of deps/eokas-base/include/eokas-base/ascil.h that they test.
-- Each loop takes fuel, one unit for a character that is left to read and one to stop.
use eokas_lang.Prelude.{
  ℕ, zero, suc, Bool, true, false, ◌&&◌, ◌||◌, leb, ◌==◌, if◌then◌else◌, length, Run, ok, fault,
  out_of_fuel, ◌>>=◌,
}
use mathlib.Core.Bool.{not}
use eokas_lang.Token.{TokenType, infer}
use eokas_lang.Scanner.State.{Scanner, read_char, save_char, save_and_read_char, set_type, new_line}

abbrev in_range : ℕ → ℕ → ℕ → Bool
in_range c a b = leb a c && leb c b

-- _ascil_is_number, _ascil_is_upper, _ascil_is_lower
unfoldable pub is_number : ℕ → Bool
is_number c = in_range c 0x30 0x39

unfoldable pub is_alpha : ℕ → Bool
is_alpha c = in_range c 0x41 0x5A || in_range c 0x61 0x7A

-- _ascil_is_hex
unfoldable pub is_hex : ℕ → Bool
unfolding is_number
is_hex c = is_number c || in_range c b'A' b'F' || in_range c b'a' b'f'

-- _ascil_is_alpha_
unfoldable pub is_alpha_ : ℕ → Bool
unfolding is_alpha
is_alpha_ c = is_alpha c || c == b'_'

-- _ascil_is_alpha_number_
unfoldable pub is_alpha_number_ : ℕ → Bool
unfolding is_alpha is_number
is_alpha_number_ c = is_alpha c || is_number c || c == b'_'

-- The characters that end no line comment.
unfoldable pub in_line : ℕ → Bool
in_line c = not (c == b'\n' || c == b'\r' || c == 0)

-- `current == '0' || current == '1'`
unfoldable pub is_bit : ℕ → Bool
is_bit c = c == b'0' || c == b'1'

-- `while (test(m_current)) body;`
unfoldable pub while_char : ℕ → (ℕ → Bool) → (Scanner → Run Scanner) → Scanner → Run Scanner
while_char zero test body s = fault out_of_fuel
while_char (suc fuel) test body s = elim (test s.current) [
  | true ↦ body s >>= while_char fuel test body
  | false ↦ ok s
]

abbrev save_while : (ℕ → Bool) → Scanner → Run Scanner
save_while test s = while_char (suc (length s.position)) test save_and_read_char s

unfoldable pub scan_fraction : Scanner → Run Scanner
unfolding save_and_read_char while_char is_number
scan_fraction s = do
  s₁ ← save_and_read_char s
  s₂ ← save_while is_number s₁
  ok (set_type TokenType.float s₂)

-- scanner_t::scan_number, behind its first character
unfoldable pub scan_digits : Scanner → Run Scanner
unfolding save_and_read_char while_char is_number is_hex is_bit scan_fraction
scan_digits s =
    if s.current == b'b' || s.current == b'B'
    then (do s₁ ← save_and_read_char s; s₂ ← save_while is_bit s₁; ok (set_type TokenType.int_b s₂))
    else if s.current == b'x' || s.current == b'X'
    then (do s₁ ← save_and_read_char s; s₂ ← save_while is_hex s₁; ok (set_type TokenType.int_x s₂))
    else do
      s₁ ← save_while is_number s
      let s₂ = set_type TokenType.int_d s₁
      if s₂.current == b'.' then scan_fraction s₂ else ok s₂

-- scanner_t::scan_number
unfoldable pub scan_number : Scanner → Run Scanner
unfolding scan_digits
scan_number s = save_and_read_char s >>= scan_digits

-- How a pass of a loop ends: `break` or a next pass, or `return`.
pub data Flow : Type 0 where
  again : Scanner → Flow
  finished : Scanner → Flow

-- `m_token.type = UNKNOWN; return;`
abbrev pub reject : Scanner → Run Flow
reject s = ok (finished (set_type TokenType.unknown s))

abbrev pub go_on : Run Scanner → Run Flow
go_on m = m >>= λ s. ok (again s)

-- `save_char(c); read_char();`
unfoldable pub save_escape : ℕ → Scanner → Run Scanner
unfolding read_char
save_escape c s = read_char (save_char c s)

-- `case 'x'` of the escapes, behind the `x`
unfoldable pub scan_hex_escape : Scanner → Run Flow
unfolding is_hex save_and_read_char
scan_hex_escape s =
    if is_hex s.current
    then (do
      s₁ ← save_and_read_char s
      if is_hex s₁.current then go_on (save_and_read_char s₁) else reject s₁)
    else reject s

-- The switch over the character behind a backslash.
unfoldable pub scan_escape : Scanner → Run Flow
unfolding scan_hex_escape save_escape save_and_read_char read_char
scan_escape s =
    if s.current == b'a'
    then go_on (save_escape 7 s)
    else if s.current == b'b'
    then go_on (save_escape 8 s)
    else if s.current == b'f'
    then go_on (save_escape 12 s)
    else if s.current == b'n'
    then go_on (save_escape 10 s)
    else if s.current == b'r'
    then go_on (save_escape 13 s)
    else if s.current == b't'
    then go_on (save_escape 9 s)
    else if s.current == b'v'
    then go_on (save_escape 11 s)
    else if s.current == b'x'
    then (do s₁ ← read_char s; scan_hex_escape s₁)
    else if s.current == b'\\' || s.current == b'\'' || s.current == b'"'
    then go_on (save_and_read_char s)
    else reject s

-- A pass of the loop of `scan_string`.
unfoldable pub scan_string_char : Scanner → Run Flow
unfolding scan_escape save_and_read_char read_char
scan_string_char s =
    if s.current == 0
    then reject s
    else if s.current == b'\n' || s.current == b'\r'
    then reject s
    else if s.current == b'\\'
    then (do s₁ ← read_char s; scan_escape s₁)
    else go_on (save_and_read_char s)

-- The loop of `scan_string` and what follows it.
unfoldable pub scan_string_loop : ℕ → ℕ → Scanner → Run Scanner
unfolding scan_string_char read_char
scan_string_loop zero delimiter s = fault out_of_fuel
scan_string_loop (suc fuel) delimiter s = elim (s.current == delimiter) [
  | true ↦ do s₁ ← read_char s; ok (set_type TokenType.string s₁)
  | false ↦ scan_string_char s >>= λ flow. elim flow [
    | again s' ↦ scan_string_loop fuel delimiter s'
    | finished s' ↦ ok s'
  ]
]

-- scanner_t::scan_string
unfoldable pub scan_string : ℕ → Scanner → Run Scanner
unfolding read_char scan_string_loop
scan_string delimiter s = do
  s₁ ← read_char s
  scan_string_loop (suc (length s₁.position)) delimiter s₁

-- scanner_t::scan_identifier
unfoldable pub scan_identifier : Scanner → Run Scanner
unfolding save_and_read_char while_char is_alpha_number_ infer
scan_identifier s = do
  s₁ ← save_and_read_char s
  s₂ ← save_while is_alpha_number_ s₁
  ok (record s₂ { token = infer TokenType.id s₂.token })

-- scanner_t::scan_line_comment
unfoldable pub scan_line_comment : Scanner → Run Scanner
unfolding read_char while_char in_line
scan_line_comment s = do
  s₁ ← read_char s
  while_char (suc (length s₁.position)) in_line read_char s₁

-- `case '*'` of a section comment
unfoldable pub close_section : Scanner → Run Flow
unfolding read_char
close_section s = do
  s₁ ← read_char s
  if s₁.current == b'/' then (do s₂ ← read_char s₁; ok (finished s₂)) else ok (again s₁)

-- A pass of the loop of `scan_section_comment`.
unfoldable pub scan_section_char : Scanner → Run Flow
unfolding close_section new_line read_char
scan_section_char s =
    if s.current == 0
    then ok (finished (set_type TokenType.eos s))
    else if s.current == b'\n' || s.current == b'\r'
    then go_on (new_line s)
    else if s.current == b'*'
    then close_section s
    else go_on (read_char s)

unfoldable pub scan_section_loop : ℕ → Scanner → Run Scanner
unfolding scan_section_char
scan_section_loop zero s = fault out_of_fuel
scan_section_loop (suc fuel) s = scan_section_char s >>= λ flow. elim flow [
  | again s' ↦ scan_section_loop fuel s'
  | finished s' ↦ ok s'
]

-- scanner_t::scan_section_comment
unfoldable pub scan_section_comment : Scanner → Run Scanner
unfolding read_char scan_section_loop
scan_section_comment s = do s₁ ← read_char s; scan_section_loop (suc (length s₁.position)) s₁
