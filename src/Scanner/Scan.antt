-- ===== src/Scanner/Scan.antt =====
-- src/app/scanner.cxx: `scan`, `next_token` and `look_ahead_token`.
use eokas_lang.Prelude.{
  ℕ, zero, suc, ◌||◌, ◌==◌, if◌then◌else◌, length, Run, ok, fault, out_of_fuel, ◌>>=◌,
}
use eokas_lang.Token.{TokenType, empty_token, infer, same_type}
use eokas_lang.Scanner.State.{Scanner, read_char, save_char, save_and_read_char, set_type, new_line}
use eokas_lang.Scanner.Lexeme.{
  Flow, again, finished, go_on, is_number, is_alpha_, scan_number, scan_string, scan_identifier,
  scan_line_comment, scan_section_comment,
}

abbrev pub finish : Run Scanner → Run Flow
finish m = m >>= λ s. ok (finished s)

-- `save_and_read_char(); m_token.type = t; return;`
unfoldable pub take_as : TokenType → Scanner → Run Flow
unfolding save_and_read_char
take_as t s = do s₁ ← save_and_read_char s; ok (finished (set_type t s₁))

-- `m_token.type = t; return;`
abbrev leave_as : TokenType → Scanner → Run Flow
leave_as t s = ok (finished (set_type t s))

-- `case '/'`
unfoldable pub scan_slash : Scanner → Run Flow
unfolding read_char scan_line_comment scan_section_comment
scan_slash s = do
  let div = s.current
  s₁ ← read_char s
  if s₁.current == b'/'
      then go_on (scan_line_comment s₁)
      else if s₁.current == b'*'
      then go_on (scan_section_comment s₁)
      else leave_as TokenType.div (save_char div s₁)

-- `case '&'`, `case '='`, `case '<'`, `case '!'`: one character, or two
unfoldable pub scan_pair : ℕ → TokenType → TokenType → Scanner → Run Flow
unfolding save_and_read_char take_as
scan_pair second two one s = do
  s₁ ← save_and_read_char s
  if s₁.current == second then take_as two s₁ else leave_as one s₁

-- `case '|'` and `case '>'`: one character, or two in either of two ways
unfoldable pub scan_three : ℕ → TokenType → ℕ → TokenType → TokenType → Scanner → Run Flow
unfolding save_and_read_char take_as
scan_three c t d u one s = do
  s₁ ← save_and_read_char s
  if s₁.current == c
      then take_as t s₁
      else if s₁.current == d
      then take_as u s₁
      else leave_as one s₁

-- `case '.'`
unfoldable pub scan_dots : Scanner → Run Flow
unfolding save_and_read_char take_as
scan_dots s = do
  s₁ ← save_and_read_char s
  if s₁.current == b'.'
      then (do
        s₂ ← save_and_read_char s₁
        if s₂.current == b'.' then take_as TokenType.dot3 s₂ else leave_as TokenType.dot2 s₂)
      else leave_as TokenType.dot s₁

-- `default`: an identifier, or an operator of one character
unfoldable pub scan_default : Scanner → Run Flow
unfolding is_alpha_ scan_identifier save_and_read_char infer
scan_default s = if is_alpha_ s.current then finish (scan_identifier s) else do
  s₁ ← save_and_read_char s
  ok (finished (record s₁ { token = infer TokenType.unknown s₁.token }))

-- The switch of `scan`.
unfoldable pub scan_char : Scanner → Run Flow
unfolding new_line read_char scan_slash scan_pair scan_three scan_dots scan_default is_number
    scan_number scan_string
scan_char s =
    if s.current == 0
    then leave_as TokenType.eos s
    else if s.current == b'\n' || s.current == b'\r'
    then go_on (new_line s)
    else if s.current == b' ' || s.current == 12 || s.current == b'\t' || s.current == 11
    then go_on (read_char s)
    else if s.current == b'/'
    then scan_slash s
    else if s.current == b'&'
    then scan_pair b'&' TokenType.and2 TokenType.and s
    else if s.current == b'|'
    then scan_three b'|' TokenType.or2 b'<' TokenType.shift_l TokenType.or s
    else if s.current == b'='
    then scan_pair b'=' TokenType.eq TokenType.assign s
    else if s.current == b'<'
    then scan_pair b'=' TokenType.le TokenType.lt s
    else if s.current == b'>'
    then scan_three b'|' TokenType.shift_r b'=' TokenType.ge TokenType.gt s
    else if s.current == b'!'
    then scan_pair b'=' TokenType.ne TokenType.not s
    else if s.current == b'.'
    then scan_dots s
    else if is_number s.current
    then finish (scan_number s)
    else if s.current == b'"' || s.current == b'\''
    then finish (scan_string s.current s)
    else scan_default s

unfoldable pub scan_loop : ℕ → Scanner → Run Scanner
unfolding scan_char
scan_loop zero s = fault out_of_fuel
scan_loop (suc fuel) s =
    scan_char s >>= λ flow. elim flow [ again s' ↦ scan_loop fuel s' | finished s' ↦ ok s' ]

-- scanner_t::scan
unfoldable pub scan : Scanner → Run Scanner
unfolding scan_loop
scan s = scan_loop (suc (length s.position)) (record s { token = empty_token })

-- scanner_t::next_token
unfoldable pub next_token : Scanner → Run Scanner
next_token s =
    if same_type s.look_ahead.type TokenType.unknown
    then scan s
    else ok (record s { token = s.look_ahead; look_ahead = empty_token })

-- scanner_t::look_ahead_token
unfoldable pub look_ahead_token : Scanner → Run Scanner
look_ahead_token s =
    if same_type s.look_ahead.type TokenType.unknown
    then (do s₁ ← scan s; ok (record s₁ { look_ahead = s₁.token; token = s.token }))
    else ok s
