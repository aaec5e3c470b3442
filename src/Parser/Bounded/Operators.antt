-- ===== src/Parser/Bounded/Operators.antt =====
-- Unary, binary and ternary expressions of src/app/parser.cxx within the tokens left.
use eokas_lang.Prelude.{ℕ, zero, suc, ◌≤◌, refl, arith, Option, none, some}
use eokas_lang.Token.{TokenType}
use eokas_lang.Ast.{Expr}
use eokas_lang.Ast.Oper.{UnaryOper}
use eokas_lang.Parser.Source.{TokenSource, Conversions}
use eokas_lang.Parser.Monad.{M, ◌>>=◌, ◌>>◌, pure, return_null, nullable}
use eokas_lang.Parser.Checks.{error_token_unexpected}
use eokas_lang.Parser.Literals.{
  parse_literal_int, parse_literal_float, parse_literal_bool, parse_literal_string,
}
use eokas_lang.Parser.Loops.{Callees}
use eokas_lang.Parser.Exprs.Operators.{
  operand, apply_unary, parse_expr_unary, right_operand, binary_loop, binary_at, parse_expr_binary,
  branches, parse_expr_trinary, parse_expr,
}
use eokas_lang.Parser.Bounded.Rules.{
  Keeps, Consumes, Keeps-bind, Keeps-pure, Consumes-null, Keeps-of_consumes, Consumes-bind,
  Consumes-bind_first, Consumes-bind_keeps, Consumes-below, Consumes-nullable, Consumes-crash,
}
use eokas_lang.Parser.Bounded.Checks.{Keeps-token, Keeps-error_token_unexpected}
use eokas_lang.Parser.Bounded.Literals.{Consumes-literal}
use eokas_lang.Parser.Bounded.Opers.{Keeps-check_unary_oper, Keeps-operator}
use eokas_lang.Parser.Bounded.Loops.{IsBounded, Keeps-zero}
use eokas_lang.Parser.Bounded.Types.{keeps_rules, callee_expr, parse_func_def-Consumes}
use eokas_lang.Parser.Bounded.Suffixes.{
  parse_expr_suffixed-Consumes, parse_object_def-Consumes, parse_array_def-Consumes,
}

-- What the switch of a method calls uses up a token.
module _ ⦃src : TokenSource⦄ where
  abbrev Calls : ℕ → Option (M Expr) → Type 0
  Calls n none = Unit
  Calls n (some m) = Consumes n m

module _ ⦃src : TokenSource⦄ ⦃conv : Conversions⦄ {n : ℕ} where
  pub parse_literal_int-Consumes : Consumes n parse_literal_int
  unfolding parse_literal_int
  parse_literal_int-Consumes = Consumes-literal _ λ text. refl

  parse_literal_float-Consumes : Consumes n parse_literal_float
  unfolding parse_literal_float
  parse_literal_float-Consumes = Consumes-literal _ λ text. refl

  parse_literal_bool-Consumes : Consumes n parse_literal_bool
  unfolding parse_literal_bool
  parse_literal_bool-Consumes = Consumes-literal _ λ text. refl

  int_operand : Consumes n (parse_literal_int >>= λ v. pure (Expr.literal_int v))
  int_operand = Consumes-bind_first _ _ parse_literal_int-Consumes λ v. Keeps-pure _

module _ ⦃src : TokenSource⦄ {n : ℕ} where
  pub parse_literal_string-Consumes : Consumes n parse_literal_string
  unfolding parse_literal_string
  parse_literal_string-Consumes = Consumes-literal _ λ text. refl

  string_operand : Consumes n (parse_literal_string >>= λ v. pure (Expr.literal_string v))
  string_operand = Consumes-bind_first _ _ parse_literal_string-Consumes λ v. Keeps-pure _

module _ ⦃src : TokenSource⦄ ⦃conv : Conversions⦄ {n : ℕ} (self : Callees)
    (b : IsBounded n self) where
  operand-Calls : (t : TokenType) → Calls (suc n) (operand self t)
  unfolding operand
  operand-Calls TokenType.int_b = int_operand
  operand-Calls TokenType.int_x = int_operand
  operand-Calls TokenType.int_d = int_operand
  operand-Calls TokenType.float = parse_literal_float-Consumes
  operand-Calls TokenType.string = string_operand
  operand-Calls TokenType.true_kw = parse_literal_bool-Consumes
  operand-Calls TokenType.false_kw = parse_literal_bool-Consumes
  operand-Calls TokenType.func = parse_func_def-Consumes self b
  operand-Calls TokenType.make = parse_object_def-Consumes self b
  operand-Calls TokenType.lsb = parse_array_def-Consumes self b
  operand-Calls TokenType.id = parse_expr_suffixed-Consumes self b
  operand-Calls TokenType.lrb = parse_expr_suffixed-Consumes self b
  operand-Calls _ = tt

  apply_unary-some :
      (k : ℕ) (oper : UnaryOper) (e : Expr) → Keeps k (apply_unary self oper (some e))
  unfolding apply_unary
  apply_unary-some k UnaryOper.unknown e = Keeps-pure _
  apply_unary-some k _ e = Keeps-pure _

  apply_unary-none : (k : ℕ) (oper : UnaryOper) → Consumes k (apply_unary self oper none)
  unfolding apply_unary
  apply_unary-none k UnaryOper.unknown = Consumes-null
  apply_unary-none k _ = Consumes-crash

  unary_operand-Consumes :
      (oper : UnaryOper) (o : Option (M Expr))
      → Calls (suc n) o
      → Consumes {A = Expr} (suc n) (elim o [
        | none ↦ do error_token_unexpected; return_null
        | some parse ↦ do right ← nullable parse; apply_unary self oper right
      ])
  unary_operand-Consumes oper none c =
      Consumes-bind_keeps _ _ Keeps-error_token_unexpected λ _. Consumes-null
  unary_operand-Consumes oper (some parse) c =
      Consumes-nullable parse _ c (apply_unary-some (suc n) oper) (apply_unary-none (suc n) oper)

  parse_expr_unary-Consumes : Consumes (suc n) (parse_expr_unary self)
  unfolding parse_expr_unary
  parse_expr_unary-Consumes = Consumes-bind_keeps _ _ Keeps-check_unary_oper λ oper.
      Consumes-bind_keeps _ _ Keeps-token
        λ t. unary_operand-Consumes oper (operand self t.type) (operand-Calls t.type)

  right_operand-Consumes :
      {k : ℕ} (parse : M Expr) → Consumes k parse → Consumes k (right_operand self parse)
  unfolding right_operand
  right_operand-Consumes parse c =
      Consumes-nullable parse _ c (λ e. Keeps-pure e)
        (Consumes-bind_keeps _ _ Keeps-error_token_unexpected λ _. Consumes-null)

  binary_loop-Keeps :
      (fuel k priority : ℕ) (parse : M Expr) (left : Expr)
      → k ≤ fuel
      → Consumes k parse
      → Keeps k (binary_loop self fuel priority parse left)
  unfolding binary_loop
  binary_loop-Keeps fuel zero priority parse left h c = Keeps-zero _
  binary_loop-Keeps zero (suc k) priority parse left h c = absurd (omega arith)
  binary_loop-Keeps (suc fuel) (suc k) priority parse left h c =
      let c' = Consumes-below {k = k} parse (omega arith) c in
      Keeps-operator priority _ _
        (λ oper. Keeps-bind _ _ (Keeps-of_consumes _ (right_operand-Consumes parse c')) λ right.
          binary_loop-Keeps fuel k priority parse (Expr.binary oper left right) (omega arith) c')
        (Keeps-pure left)

  binary_at-Consumes : (levels : ℕ) → Consumes (suc n) (binary_at self levels)
  unfolding binary_at
  binary_at-Consumes zero = Consumes-bind _ _ parse_expr_unary-Consumes λ left.
      binary_loop-Keeps self.rounds n _ _ left b.rounds
        (Consumes-below _ (omega arith) parse_expr_unary-Consumes)
  binary_at-Consumes (suc levels) = Consumes-bind _ _ (binary_at-Consumes levels) λ left.
      binary_loop-Keeps self.rounds n _ _ left b.rounds
        (Consumes-below _ (omega arith) (binary_at-Consumes levels))

  branches-Keeps : (cond : Expr) → Keeps n (branches self cond)
  unfolding branches
  branches-Keeps cond = search (keeps_rules, callee_expr) depth 8

  parse_expr_trinary-Consumes : Consumes (suc n) (parse_expr_trinary self)
  unfolding parse_expr_trinary parse_expr_binary
  parse_expr_trinary-Consumes =
      Consumes-bind _ _ (binary_at-Consumes _)
        λ binary. search (keeps_rules, branches-Keeps) depth 8

  pub parse_expr-Consumes : Consumes (suc n) (parse_expr self)
  unfolding parse_expr
  parse_expr-Consumes = parse_expr_trinary-Consumes
