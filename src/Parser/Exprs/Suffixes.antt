-- ===== src/Parser/Exprs/Suffixes.antt =====
-- src/app/parser.cxx: primary expressions, their suffixes, and the definitions of objects and arrays.
use eokas_lang.Prelude.{ℕ, zero, suc, if◌then◌else◌}
use eokas_lang.Token.{TokenType}
use eokas_lang.Ast.{Expr, Exprs, no_exprs, Fields, no_fields}
use eokas_lang.Parser.Nodes.{push_expr, exprs_empty, set_field}
use eokas_lang.Parser.Source.{TokenSource}
use eokas_lang.Parser.Monad.{M, ◌>>=◌, ◌>>◌, pure, return_null, give_up, token, next_token}
use eokas_lang.Parser.Checks.{accept, require, require_id}
use eokas_lang.Parser.Loops.{Callees, until_token, separated}

-- The switch of `parse_expr_suffixed`: what to call for a suffix.
abbrev pub suffix : {A : Type 0} → TokenType → A → A → A → A → A
suffix TokenType.dot d l r e = d
suffix TokenType.lsb d l r e = l
suffix TokenType.lrb d l r e = r
suffix _ d l r e = e

module _ ⦃src : TokenSource⦄ (self : Callees) where
  -- A round of the loop of `parse_func_call`.
  unfoldable pub call_argument : Exprs → M Exprs
  call_argument args = do
    if exprs_empty args then pure tt else require TokenType.comma
    arg ← self.parse_expr
    pure (push_expr args arg)

  -- parser_t::parse_func_call
  unfoldable pub parse_func_call : Expr → M Expr
  parse_func_call primary = do
    require TokenType.lrb
    args ← until_token self.rounds TokenType.rrb call_argument no_exprs
    pure (Expr.func_ref primary args)

  -- parser_t::parse_index_ref
  unfoldable pub parse_index_ref : Expr → M Expr
  parse_index_ref primary = do
    require TokenType.lsb
    key ← self.parse_expr
    require TokenType.rsb
    pure (Expr.array_ref primary key)

  -- parser_t::parse_object_ref
  unfoldable pub parse_object_ref : Expr → M Expr
  parse_object_ref primary = do
    require TokenType.dot
    key ← require_id
    next_token
    pure (Expr.object_ref primary key)

  -- `'(' expr ')'` of parse_expr_primary, behind the parenthesis
  unfoldable pub parenthesized : M Expr
  parenthesized = do expr ← self.parse_expr; require TokenType.rrb; pure expr

  -- parser_t::parse_expr_primary
  unfoldable pub parse_expr_primary : M Expr
  parse_expr_primary = do
    opened ← accept TokenType.lrb
    if opened
        then parenthesized
        else (do name ← require_id; next_token; pure (Expr.symbol_ref name))

  -- The loop of `parse_expr_suffixed`.
  unfoldable pub suffixes : ℕ → Expr → M Expr
  suffixes zero primary = give_up
  suffixes (suc fuel) primary = do
    t ← token
    suffix t.type (parse_object_ref primary >>= λ e. suffixes fuel e)
        (parse_index_ref primary >>= λ e. suffixes fuel e)
        (parse_func_call primary >>= λ e. suffixes fuel e) (pure primary)

  -- parser_t::parse_expr_suffixed
  unfoldable pub parse_expr_suffixed : M Expr
  parse_expr_suffixed = do primary ← parse_expr_primary; suffixes self.rounds primary

  -- `if(!check_token(ASSIGN, false) && !check_token(COLON, false)) return false;`
  unfoldable pub require_assign_or_colon : M (Unit {0})
  require_assign_or_colon = do
    assigns ← accept TokenType.assign
    if assigns
        then pure tt
        else (do colons ← accept TokenType.colon; if colons then pure tt else return_null)

  -- parser_t::parse_object_field
  unfoldable pub parse_object_field : Fields → M Fields
  parse_object_field members = do
    key ← require_id
    next_token
    require_assign_or_colon
    expr ← self.parse_expr
    pure (set_field key expr members)

  -- parser_t::parse_object_def
  unfoldable pub parse_object_def : M Expr
  parse_object_def = do
    require TokenType.make
    type ← self.parse_type
    require TokenType.lcb
    members ← separated self.rounds TokenType.rcb TokenType.comma parse_object_field no_fields
    require TokenType.rcb
    pure (Expr.object_def type members)

  unfoldable pub array_element : Exprs → M Exprs
  array_element elements = do expr ← self.parse_expr; pure (push_expr elements expr)

  -- parser_t::parse_array_def
  unfoldable pub parse_array_def : M Expr
  parse_array_def = do
    require TokenType.lsb
    elements ← separated self.rounds TokenType.rsb TokenType.comma array_element no_exprs
    require TokenType.rsb
    pure (Expr.array_def elements)
