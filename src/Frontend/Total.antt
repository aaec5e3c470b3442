-- ===== src/Frontend/Total.antt =====
-- `parser_t::parse` of src/app/parser.cxx over `scanner_t` ends on every source.
use eokas_lang.Prelude.{ℕ, ◌≢◌, Bytes, Run, overread, out_of_fuel, Ensures, holds}
use eokas_lang.Token.{empty_token}
use eokas_lang.Scanner.State.{Scanner}
use eokas_lang.Scanner.Bounded.Reads.{IsBelow}
use eokas_lang.Scanner.Bounded.Strings.{IsBelow-self}
use eokas_lang.Scanner.Bounded.Tokens.{IsText, ready-IsBelow}
use eokas_lang.Parser.Source.{Conversions}
use eokas_lang.Parser.Monad.{failed}
use eokas_lang.Parser.Bounded.Modules.{parse-Within, Within-ne_fault}
use eokas_lang.Frontend.{scanner_source, parse_ready, parse_source}

module _ ⦃conv : Conversions⦄ where
  parse_ready-ends :
      {n : ℕ} {r : Run Scanner}
      → Ensures (IsBelow empty_token n) r
      → (parse_ready r ≢ failed out_of_fuel) × (parse_ready r ≢ failed overread)
  parse_ready-ends (holds {a = s} b) = Within-ne_fault (parse-Within s (IsBelow-self b))

  -- On every C string the parser ends within the loop and recursion bounds of the model, and the
  -- scanner under it reads no byte behind the terminator.
  pub parse_source-ends :
      (text : Bytes)
      → IsText text
      → (parse_source text ≢ failed out_of_fuel) × (parse_source text ≢ failed overread)
  unfolding parse_source
  parse_source-ends text t = parse_ready-ends (ready-IsBelow text t)
