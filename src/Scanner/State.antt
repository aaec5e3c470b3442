-- ===== src/Scanner/State.antt =====
-- src/app/scanner.cxx: the state of `scanner_t` and its primitive operations.
-- A pointer into the source is the list of the bytes from there on, the terminator included, and
-- the null pointer is the empty list. Bytes are numbers; `int` counters do not wrap here.
use eokas_lang.Prelude.{
  ℕ, ◌+◌, ◌++◌, Bool, ◌&&◌, ◌||◌, [], ◌∷◌, ◌==◌, if◌then◌else◌, Bytes, Run, ok, fault, overread,
  ◌>>=◌,
}
use mathlib.Core.Bool.{not}
use eokas_lang.Token.{TokenType, Token, empty_token}

pub record Scanner : Type 0 where
  pub source : Bytes
  pub position : Bytes
  pub current : ℕ
  pub token : Token
  pub look_ahead : Token
  pub line : ℕ
  pub column : ℕ

-- scanner_t::clear
abbrev pub cleared : Scanner
cleared = record {
  source = [];
  position = [];
  current = 0;
  token = empty_token;
  look_ahead = empty_token;
  line = 1;
  column = 0;
}

abbrev read_from : Bytes → Scanner → Run Scanner
read_from [] s = fault overread
read_from (c ∷ rest) s = ok (record s { position = rest; current = c; column = s.column + 1 })

-- scanner_t::read_char
unfoldable pub read_char : Scanner → Run Scanner
read_char s = read_from s.position s

-- scanner_t::save_char
abbrev pub save_char : ℕ → Scanner → Scanner
save_char c s = record s {
  token = record { type = s.token.type; value = s.token.value ++ (c ∷ []) };
}

-- scanner_t::save_and_read_char
unfoldable pub save_and_read_char : Scanner → Run Scanner
unfolding read_char
save_and_read_char s = read_char (save_char s.current s)

-- `m_token.type = t`
abbrev pub set_type : TokenType → Scanner → Scanner
set_type t s = record s { token = record { type = t; value = s.token.value } }

-- scanner_t::ready: the source, with its terminator
unfoldable pub ready : Bytes → Run Scanner
unfolding read_char
ready source = read_char (record cleared { source = source; position = source })

-- The second character of a line break, as `new_line` tests it.
unfoldable pub joins_break : ℕ → ℕ → Bool
joins_break old c = c == b'\n' || (c == b'\r' && not (c == old))

abbrev after_break : ℕ → Scanner → Run Scanner
after_break old s = if joins_break old s.current then read_char s else ok s

-- scanner_t::new_line
unfoldable pub new_line : Scanner → Run Scanner
unfolding read_char joins_break
new_line s = do
  s' ← read_char s
  s'' ← after_break s.current s'
  ok (record s'' { line = s''.line + 1; column = 0 })
