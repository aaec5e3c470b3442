-- ===== src/Frontend.antt =====
-- The parser of src/app/parser.cxx over the scanner of src/app/scanner.cxx, as `parser_t` joins them.
pub mod Total
pub mod Tests
use eokas_lang.Prelude.{
  ℕ, suc, ◌+◌, ◌≤◌, ◌<◌, ◌≡◌, refl, Bool, true, false, [], ◌∷◌, ◌++◌, arith, Bool-cases, inl, inr,
  Bytes, length, if◌then◌else◌, Run, ok, fault, Ensures, holds, Ensures-map,
}
use eokas_lang.Token.{TokenType, Token, same_type, empty_token}
use eokas_lang.Ast.{Module}
use eokas_lang.Scanner.State.{Scanner, ready}
use eokas_lang.Scanner.Scan.{next_token}
use eokas_lang.Scanner.Bounded.Reads.{IsBelow}
use eokas_lang.Scanner.Bounded.Strings.{IsBelow-self}
use eokas_lang.Scanner.Bounded.Tokens.{IsScanned, next_token-IsScanned}
use eokas_lang.Parser.Source.{TokenSource, Conversions}
use eokas_lang.Parser.Monad.{Parser, Outcome, failed}
use eokas_lang.Parser.Modules.{parse}

-- Bytes left, and the current token unless it is the end of the source.
abbrev pub tokens_left : Scanner → ℕ
tokens_left s = length s.position + (if same_type s.token.type TokenType.eos then 0 else 1)

-- No look-ahead token is pending, and the source ends with its terminator.
abbrev pub IsReady : Scanner → Type 0
IsReady s = IsBelow empty_token (suc (length s.position)) s

pub next_token-tokens_left :
    (s : Scanner)
    → IsReady s
    → Ensures
        (λ t.
          IsReady t
          × (tokens_left t ≤ tokens_left s)
          × (same_type s.token.type TokenType.eos ≡ false → tokens_left t < tokens_left s))
        (next_token s)
next_token-tokens_left s r = Ensures-map (next_token-IsScanned (length s.position) s r) λ t h. (
  IsBelow-self h.below,
  ground (arith, h.below.short, h.uses),
  λ e. ground (arith, h.below.short, h.uses),
)

-- `scanner_t`, as the parser uses it.
instance abbrev pub scanner_source : TokenSource
scanner_source = record {
  State = Scanner;
  token = λ s. s.token;
  line = λ s. s.line;
  column = λ s. s.column;
  next = next_token;
  IsReady = IsReady;
  left = tokens_left;
  next_lem = next_token-tokens_left;
}

module _ ⦃conv : Conversions⦄ where
  abbrev pub parse_ready : Run Scanner → Outcome Parser Module
  parse_ready (ok s) = parse s
  parse_ready (fault e) = failed e

  -- parser_t::parse on a C string
  unfoldable pub parse_source : Bytes → Outcome Parser Module
  parse_source text = parse_ready (ready (text ++ (0 ∷ [])))
