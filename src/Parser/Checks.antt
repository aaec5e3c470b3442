-- ===== src/Parser/Checks.antt =====
-- src/app/parser.cxx: the checks of the current token and the error reports.
use eokas_lang.Prelude.{ℕ, ◌/◌, ◌==◌, Bool, true, false, Bytes, if◌then◌else◌}
use eokas_lang.Token.{TokenType, Token, same_type}
use eokas_lang.Ast.Oper.{BinaryOper, UnaryOper, to_int}
use eokas_lang.Parser.Source.{TokenSource}
use eokas_lang.Parser.Monad.{
  Message, M, ◌>>=◌, ◌>>◌, pure, return_null, token, next_token, error, unexpected_eos,
  unexpected_token, import_exists, export_exists,
}

-- The message of `error_token_unexpected`.
abbrev pub unexpected : Token → Message
unexpected t = if same_type t.type TokenType.eos then unexpected_eos else unexpected_token t.value

-- The switch of `check_unary_oper`.
abbrev pub unary_oper : TokenType → UnaryOper
unary_oper TokenType.add = UnaryOper.pos
unary_oper TokenType.sub = UnaryOper.neg
unary_oper TokenType.not = UnaryOper.not
unary_oper TokenType.flip = UnaryOper.flip
unary_oper TokenType.at = UnaryOper.type_of
unary_oper TokenType.pound = UnaryOper.size_of
unary_oper _ = UnaryOper.unknown

abbrev pub is_unary : UnaryOper → Bool
is_unary UnaryOper.unknown = false
is_unary _ = true

-- The switch of `check_binary_oper`.
abbrev pub binary_oper : TokenType → BinaryOper
binary_oper TokenType.or2 = BinaryOper.or
binary_oper TokenType.and2 = BinaryOper.and
binary_oper TokenType.eq = BinaryOper.eq
binary_oper TokenType.gt = BinaryOper.gt
binary_oper TokenType.lt = BinaryOper.lt
binary_oper TokenType.ge = BinaryOper.ge
binary_oper TokenType.le = BinaryOper.le
binary_oper TokenType.ne = BinaryOper.ne
binary_oper TokenType.add = BinaryOper.add
binary_oper TokenType.sub = BinaryOper.sub
binary_oper TokenType.mul = BinaryOper.mul
binary_oper TokenType.div = BinaryOper.div
binary_oper TokenType.mod_op = BinaryOper.mod_op
binary_oper TokenType.and = BinaryOper.bit_and
binary_oper TokenType.or = BinaryOper.bit_or
binary_oper TokenType.xor = BinaryOper.bit_xor
binary_oper TokenType.shift_l = BinaryOper.shift_l
binary_oper TokenType.shift_r = BinaryOper.shift_r
binary_oper _ = BinaryOper.unknown

abbrev pub is_binary : BinaryOper → Bool
is_binary BinaryOper.unknown = false
is_binary _ = true

-- `if((int) oper / 100 != priority) oper = UNKNOWN;`
unfoldable pub at_priority : ℕ → BinaryOper → BinaryOper
at_priority priority oper = if to_int oper / 100 == priority then oper else BinaryOper.unknown

module _ ⦃src : TokenSource⦄ where
  -- parser_t::error_token_unexpected
  unfoldable pub error_token_unexpected : M (Unit {0})
  unfolding error
  error_token_unexpected = do t ← token; error (unexpected t)

  -- parser_t::error_import_exists, parser_t::error_export_exists
  unfoldable pub error_import_exists : Bytes → M (Unit {0})
  error_import_exists entry = error (import_exists entry)

  unfoldable pub error_export_exists : Bytes → M (Unit {0})
  error_export_exists entry = error (export_exists entry)

  abbrev when : Bool → M (Unit {0}) → M (Unit {0})
  when b m = if b then m else pure tt

  -- parser_t::check_token
  unfoldable pub check_token : TokenType → Bool → Bool → M Bool
  check_token token_type required movenext = do
    t ← token
    if same_type t.type token_type
        then (do when movenext next_token; pure true)
        else (do when required error_token_unexpected; pure false)

  -- parser_t::check_unary_oper
  unfoldable pub check_unary_oper : Bool → Bool → M UnaryOper
  check_unary_oper required movenext = do
    t ← token
    let oper = unary_oper t.type
    if is_unary oper
        then (do when movenext next_token; pure oper)
        else (do when required error_token_unexpected; pure oper)

  -- parser_t::check_binary_oper
  unfoldable pub check_binary_oper : ℕ → Bool → Bool → M BinaryOper
  check_binary_oper priority required movenext = do
    t ← token
    let oper = at_priority priority (binary_oper t.type)
    if is_binary oper
        then (do when movenext next_token; pure oper)
        else (do when required error_token_unexpected; pure oper)

  -- `if(!check_token(t)) return nullptr;`
  unfoldable pub require : TokenType → M (Unit {0})
  require t = do found ← check_token t true true; if found then pure tt else return_null

  -- `check_token(t, false)`
  abbrev pub accept : TokenType → M Bool
  accept t = check_token t false true

  -- `if(!check_token(ID, true, false)) return nullptr;` and the text of the identifier
  unfoldable pub require_id : M Bytes
  require_id = do
    found ← check_token TokenType.id true false
    t ← token
    if found then pure t.value else return_null
