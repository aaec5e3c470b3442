-- ===== src/Parser/Bounded/Types.antt =====
-- The methods of src/app/parser.cxx for types and functions within the tokens left.
use eokas_lang.Prelude.{ℕ, suc, refl, Bytes, List, []}
use eokas_lang.Token.{TokenType}
use eokas_lang.Ast.{TypeNodes, no_types, Stmts, FuncArg, no_stmts}
use eokas_lang.Parser.Source.{TokenSource}
use eokas_lang.Parser.Loops.{Callees}
use eokas_lang.Parser.Types.{type_argument, type_arguments, parse_type}
use eokas_lang.Parser.Functions.{
  func_param, parse_func_params, body_stmt, parse_func_body, parse_func_def,
}
use eokas_lang.Parser.Bounded.Rules.{
  left, Keeps, Consumes, Keeps-bind, Keeps-pure, Keeps-null, Consumes-null, Keeps-if, Consumes-if,
  Keeps-of_consumes, Consumes-bind, Consumes-bind_keeps, Consumes-bind_first, Consumes-weaken,
  Keeps-weaken,
}
use eokas_lang.Parser.Bounded.Checks.{
  Keeps-accept, Consumes-accept, Keeps-accept_plain, Keeps-token, Keeps-require, Consumes-require,
  Keeps-require_id, Keeps-next_token, Keeps-error, Keeps-error_token_unexpected,
}
use eokas_lang.Parser.Bounded.Literals.{Consumes-id}
use eokas_lang.Parser.Bounded.Loops.{IsBounded, Keeps-until_token, Keeps-separated}

pub ruleset keeps_rules = (
  Keeps-bind, Keeps-pure, Keeps-null, Keeps-if, Keeps-require, Keeps-require_id, Keeps-next_token,
  Keeps-error, Keeps-error_token_unexpected, Keeps-token, Keeps-accept_plain,
)

pub ruleset consumes_rules =
    (Consumes-bind_first, Consumes-bind_keeps, Consumes-require, keeps_rules)

module _ ⦃src : TokenSource⦄ {n : ℕ} (self : Callees) (b : IsBounded n self) where
  pub callee_type : Keeps n self.parse_type
  callee_type = Keeps-of_consumes self.parse_type b.type

  pub callee_expr : Keeps n self.parse_expr
  callee_expr = Keeps-of_consumes self.parse_expr b.expr

  pub callee_stmt : Keeps n self.parse_stmt
  callee_stmt = Keeps-of_consumes self.parse_stmt b.stmt

  type_argument-Consumes : (args : TypeNodes) → Consumes n (type_argument self args)
  unfolding type_argument
  type_argument-Consumes args = search (consumes_rules, b.type)

  type_arguments-Keeps : (name : Bytes) → Keeps n (type_arguments self name)
  unfolding type_arguments
  type_arguments-Keeps name =
      Keeps-bind _ _
        (Keeps-until_token TokenType.gt refl (type_argument self) self.rounds n b.rounds
          type_argument-Consumes no_types)
        λ args. search keeps_rules depth 8

  pub parse_type-Consumes : Consumes (suc n) (parse_type self)
  unfolding parse_type
  parse_type-Consumes = Consumes-id _ λ name. search (keeps_rules, type_arguments-Keeps) depth 8

  func_param-Keeps : (args : List FuncArg) → Keeps n (func_param self args)
  unfolding func_param
  func_param-Keeps args = search (keeps_rules, callee_type) depth 12

  parse_func_params-Keeps : Keeps n (parse_func_params self)
  unfolding parse_func_params
  parse_func_params-Keeps = Keeps-bind _ _ (Keeps-require TokenType.lrb refl) λ _.
      Keeps-bind _ _
        (Keeps-separated TokenType.rrb refl (func_param self) TokenType.comma refl self.rounds n
          b.rounds func_param-Keeps [])
        λ args. search keeps_rules

  body_stmt-Consumes : (body : Stmts) → Consumes n (body_stmt self body)
  unfolding body_stmt
  body_stmt-Consumes body = search (consumes_rules, b.stmt)

  parse_func_body-Keeps : Keeps n (parse_func_body self)
  unfolding parse_func_body
  parse_func_body-Keeps = Keeps-bind _ _ (Keeps-require TokenType.lcb refl) λ _.
      Keeps-until_token TokenType.rcb refl (body_stmt self) self.rounds n b.rounds
        body_stmt-Consumes no_stmts

  pub parse_func_def-Consumes : Consumes (suc n) (parse_func_def self)
  unfolding parse_func_def
  parse_func_def-Consumes = Consumes-bind _ _ (Consumes-require TokenType.func refl) λ _.
      search (keeps_rules, parse_func_params-Keeps, callee_type, parse_func_body-Keeps) depth 12
