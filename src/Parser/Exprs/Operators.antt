-- ===== src/Parser/Exprs/Operators.antt =====
-- src/app/parser.cxx: unary, binary and ternary expressions.
use eokas_lang.Prelude.{ℕ, zero, suc, ◌-◌, ◌/◌, true, false, Option, none, some, if◌then◌else◌}
use eokas_lang.Token.{TokenType}
use eokas_lang.Ast.{Expr}
use eokas_lang.Ast.Oper.{UnaryOper, max_level}
use eokas_lang.Parser.Source.{TokenSource, Conversions}
use eokas_lang.Parser.Monad.{M, ◌>>=◌, ◌>>◌, pure, return_null, crash, nullable, give_up, token}
use eokas_lang.Parser.Checks.{
  accept, require, check_unary_oper, check_binary_oper, is_unary, is_binary, error_token_unexpected,
}
use eokas_lang.Parser.Loops.{Callees}
use eokas_lang.Parser.Literals.{
  parse_literal_int, parse_literal_float, parse_literal_bool, parse_literal_string,
}
use eokas_lang.Parser.Functions.{parse_func_def}
use eokas_lang.Parser.Exprs.Suffixes.{parse_expr_suffixed, parse_object_def, parse_array_def}

module _ ⦃src : TokenSource⦄ ⦃conv : Conversions⦄ (self : Callees) where
  -- What the switch of `parse_expr_unary` calls; `none` is its default case.
  unfoldable pub operand : TokenType → Option (M Expr)
  operand TokenType.int_b = some (parse_literal_int >>= λ v. pure (Expr.literal_int v))
  operand TokenType.int_x = some (parse_literal_int >>= λ v. pure (Expr.literal_int v))
  operand TokenType.int_d = some (parse_literal_int >>= λ v. pure (Expr.literal_int v))
  operand TokenType.float = some parse_literal_float
  operand TokenType.string = some (parse_literal_string >>= λ v. pure (Expr.literal_string v))
  operand TokenType.true_kw = some parse_literal_bool
  operand TokenType.false_kw = some parse_literal_bool
  operand TokenType.func = some (parse_func_def self)
  operand TokenType.make = some (parse_object_def self)
  operand TokenType.lsb = some (parse_array_def self)
  operand TokenType.id = some (parse_expr_suffixed self)
  operand TokenType.lrb = some (parse_expr_suffixed self)
  operand _ = none

  -- The end of `parse_expr_unary`: under an operator, `right->parent` is written with no test of
  -- `right`.
  unfoldable pub apply_unary : UnaryOper → Option Expr → M Expr
  apply_unary oper right =
      if is_unary oper
      then elim right [ some e ↦ pure (Expr.unary oper e) | none ↦ crash ]
      else elim right [ some e ↦ pure e | none ↦ return_null ]

  -- parser_t::parse_expr_unary
  unfoldable pub parse_expr_unary : M Expr
  parse_expr_unary = do
    oper ← check_unary_oper false true
    t ← token
    elim (operand t.type) [
      | none ↦ do error_token_unexpected; return_null
      | some parse ↦ do right ← nullable parse; apply_unary oper right
    ]

  -- The right operand of `parse_expr_binary`.
  unfoldable pub right_operand : M Expr → M Expr
  right_operand parse = do
    right ← nullable parse
    elim right [ some e ↦ pure e | none ↦ do error_token_unexpected; return_null ]

  -- The loop of `parse_expr_binary`.
  unfoldable pub binary_loop : ℕ → ℕ → M Expr → Expr → M Expr
  binary_loop zero priority parse left = give_up
  binary_loop (suc fuel) priority parse left = do
    oper ← check_binary_oper priority false true
    if is_binary oper
        then (do
          right ← right_operand parse
          binary_loop fuel priority parse (Expr.binary oper left right))
        else pure left

  -- parser_t::parse_expr_binary, at `levels` levels below the highest priority: its operands are
  -- those of the next priority, or unary expressions.
  unfoldable pub binary_at : ℕ → M Expr
  binary_at zero = do
    left ← parse_expr_unary
    binary_loop self.rounds (max_level / 100) parse_expr_unary left
  binary_at (suc levels) =
      let next = binary_at levels in
      next >>= λ left. binary_loop self.rounds (max_level / 100 - suc levels) next left

  -- parser_t::parse_expr_binary
  unfoldable pub parse_expr_binary : ℕ → M Expr
  parse_expr_binary priority = binary_at (max_level / 100 - priority)

  -- `'?' expr ':' expr` of parse_expr_trinary, behind the question mark
  unfoldable pub branches : Expr → M Expr
  branches cond = do
    branch_true ← self.parse_expr
    require TokenType.colon
    branch_false ← self.parse_expr
    pure (Expr.trinary cond branch_true branch_false)

  -- parser_t::parse_expr_trinary
  unfoldable pub parse_expr_trinary : M Expr
  parse_expr_trinary = do
    binary ← parse_expr_binary 1
    asks ← accept TokenType.question
    if asks then branches binary else pure binary

  -- parser_t::parse_expr
  unfoldable pub parse_expr : M Expr
  parse_expr = parse_expr_trinary
