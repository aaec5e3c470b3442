-- ===== src/Parser/Literals.antt =====
-- src/app/parser.cxx: the literals. Each is a switch over the type of the current token.
use eokas_lang.Prelude.{Bytes, Option, none, some}
use eokas_lang.Token.{TokenType}
use eokas_lang.Ast.{Expr}
use eokas_lang.Ast.Int.{ℤ}
use eokas_lang.Parser.Source.{TokenSource, Conversions}
use eokas_lang.Parser.Monad.{M, ◌>>=◌, ◌>>◌, pure, return_null, token, next_token}
use eokas_lang.Parser.Checks.{error_token_unexpected}

module _ ⦃conv : Conversions⦄ where
  -- The value of a token in `parse_literal_int`, `none` in the default case.
  abbrev pub int_value : TokenType → Bytes → Option ℤ
  int_value TokenType.int_b text = some (conv.binstr_to_value text)
  int_value TokenType.int_x text = some (conv.hexstr_to_value text)
  int_value TokenType.int_d text = some (conv.string_to_int text)
  int_value _ text = none

  abbrev pub float_value : TokenType → Bytes → Option Expr
  float_value TokenType.float text = some (Expr.literal_float (conv.string_to_float text))
  float_value _ text = none

  abbrev pub bool_value : TokenType → Bytes → Option Expr
  bool_value TokenType.true_kw text = some (Expr.literal_bool (conv.string_to_bool text))
  bool_value TokenType.false_kw text = some (Expr.literal_bool (conv.string_to_bool text))
  bool_value _ text = none

abbrev pub string_value : TokenType → Bytes → Option Bytes
string_value TokenType.string text = some text
string_value _ text = none

module _ ⦃src : TokenSource⦄ where
  -- The switch of a literal: the node and a step, or an error.
  unfoldable pub literal : {A : Type 0} → (TokenType → Bytes → Option A) → M A
  literal value = do
    t ← token
    elim (value t.type t.value) [
      | some a ↦ do next_token; pure a
      | none ↦ do error_token_unexpected; return_null
    ]

  -- parser_t::parse_literal_int, its value
  unfoldable pub parse_literal_int : ⦃conv : Conversions⦄ → M ℤ
  parse_literal_int = literal int_value

  -- parser_t::parse_literal_float
  unfoldable pub parse_literal_float : ⦃conv : Conversions⦄ → M Expr
  parse_literal_float = literal float_value

  -- parser_t::parse_literal_bool
  unfoldable pub parse_literal_bool : ⦃conv : Conversions⦄ → M Expr
  parse_literal_bool = literal bool_value

  -- parser_t::parse_literal_string, its value
  unfoldable pub parse_literal_string : M Bytes
  parse_literal_string = literal string_value
