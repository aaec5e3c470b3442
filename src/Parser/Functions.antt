-- ===== src/Parser/Functions.antt =====
-- src/app/parser.cxx: function definitions.
use eokas_lang.Prelude.{List, [], ◌∷◌, ◌++◌, if◌then◌else◌}
use eokas_lang.Token.{TokenType}
use eokas_lang.Ast.{Expr, Stmts, FuncArg, no_stmts}
use eokas_lang.Parser.Nodes.{push_stmt, get_arg}
use eokas_lang.Parser.Source.{TokenSource}
use eokas_lang.Parser.Monad.{M, ◌>>=◌, ◌>>◌, pure, return_null, next_token}
use eokas_lang.Parser.Checks.{require, require_id, error_token_unexpected}
use eokas_lang.Parser.Loops.{Callees, until_token, separated}

module _ ⦃src : TokenSource⦄ (self : Callees) where
  -- A round of the loop of `parse_func_params`; the second test of the name is that of `addArg`.
  unfoldable pub func_param : List FuncArg → M (List FuncArg)
  func_param args = do
    name ← require_id
    if get_arg name args then (do error_token_unexpected; return_null) else pure tt
    next_token
    require TokenType.colon
    type ← self.parse_type
    if get_arg name args then (do error_token_unexpected; return_null) else pure tt
    pure (args ++ (record { name = name; type = type } ∷ []))

  -- parser_t::parse_func_params
  unfoldable pub parse_func_params : M (List FuncArg)
  parse_func_params = do
    require TokenType.lrb
    args ← separated self.rounds TokenType.rrb TokenType.comma func_param []
    require TokenType.rrb
    pure args

  unfoldable pub body_stmt : Stmts → M Stmts
  body_stmt body = do stmt ← self.parse_stmt; pure (push_stmt body stmt)

  -- parser_t::parse_func_body
  unfoldable pub parse_func_body : M Stmts
  parse_func_body = do
    require TokenType.lcb
    until_token self.rounds TokenType.rcb body_stmt no_stmts

  -- parser_t::parse_func_def
  unfoldable pub parse_func_def : M Expr
  parse_func_def = do
    require TokenType.func
    args ← parse_func_params
    require TokenType.colon
    rtype ← self.parse_type
    body ← parse_func_body
    pure (Expr.func_def rtype args body)
