-- ===== src/Parser/Stmts/Control.antt =====
-- src/app/parser.cxx: the other statements, and the choice between statements.
use eokas_lang.Prelude.{Bool, true, false, ◌||◌, Option, none, some, if◌then◌else◌}
use eokas_lang.Token.{TokenType, same_type}
use eokas_lang.Ast.{
  Expr, Stmt, Stmts, no_stmts, null_expr, some_expr, MaybeStmt, null_stmt, some_stmt,
}
use eokas_lang.Parser.Nodes.{push_stmt}
use eokas_lang.Parser.Source.{TokenSource, Conversions}
use eokas_lang.Parser.Monad.{M, ◌>>=◌, ◌>>◌, pure, return_null, nullable, token}
use eokas_lang.Parser.Checks.{accept, require, check_token, error_token_unexpected}
use eokas_lang.Parser.Loops.{Callees, until_token}
use eokas_lang.Parser.Exprs.Suffixes.{parse_expr_suffixed}
use eokas_lang.Parser.Stmts.Definitions.{
  parse_stmt_struct_def, parse_stmt_enum_def, parse_stmt_proc_def, parse_stmt_symbol_def,
}

-- `category == ast_category_t::FUNC_REF`
abbrev pub is_call : Expr → Bool
is_call (Expr.func_ref f args) = true
is_call _ = false

module _ ⦃src : TokenSource⦄ (self : Callees) where
  -- parser_t::parse_stmt_continue, parser_t::parse_stmt_break
  unfoldable pub parse_stmt_continue : M Stmt
  parse_stmt_continue = do require TokenType.continue; pure Stmt.continue

  unfoldable pub parse_stmt_break : M Stmt
  parse_stmt_break = do require TokenType.break; pure Stmt.break

  -- parser_t::parse_stmt_return
  unfoldable pub parse_stmt_return : M Stmt
  parse_stmt_return = do
    require TokenType.return
    ends ← check_token TokenType.semicolon false false
    if ends
        then pure (Stmt.return null_expr)
        else (do value ← self.parse_expr; pure (Stmt.return (some_expr value)))

  -- `[else stmt]` of an if statement
  unfoldable pub else_branch : M MaybeStmt
  else_branch = do
    has_else ← accept TokenType.else_kw
    if has_else then (do stmt ← self.parse_stmt; pure (some_stmt stmt)) else pure null_stmt

  -- parser_t::parse_stmt_if
  unfoldable pub parse_stmt_if : M Stmt
  parse_stmt_if = do
    require TokenType.if_kw
    require TokenType.lrb
    cond ← self.parse_expr
    require TokenType.rrb
    branch_true ← self.parse_stmt
    branch_false ← else_branch
    pure (Stmt.if_stmt cond branch_true branch_false)

  -- parser_t::parse_stmt_assign_or_call
  unfoldable pub parse_stmt_assign_or_call : M Stmt
  parse_stmt_assign_or_call = do
    left ← parse_expr_suffixed self
    assigns ← accept TokenType.assign
    if assigns
        then (do right ← self.parse_expr; pure (Stmt.assign left right))
        else if is_call left
        then pure (Stmt.invoke left)
        else (do error_token_unexpected; return_null)

  -- parser_t::parse_stmt_loop_init
  unfoldable pub parse_stmt_loop_init : M Stmt
  parse_stmt_loop_init = do
    stmt ← parse_stmt_symbol_def self
    require TokenType.semicolon
    pure stmt

  -- parser_t::parse_stmt_loop_cond
  unfoldable pub parse_stmt_loop_cond : M Expr
  parse_stmt_loop_cond = do cond ← self.parse_expr; require TokenType.semicolon; pure cond

  -- parser_t::parse_stmt_loop_step
  unfoldable pub parse_stmt_loop_step : M Stmt
  parse_stmt_loop_step = do
    t ← token
    if same_type t.type TokenType.var || same_type t.type TokenType.val
        then parse_stmt_symbol_def self
        else parse_stmt_assign_or_call

  -- parser_t::parse_stmt_loop
  unfoldable pub parse_stmt_loop : M Stmt
  parse_stmt_loop = do
    require TokenType.loop
    require TokenType.lrb
    init ← parse_stmt_loop_init
    cond ← parse_stmt_loop_cond
    step ← parse_stmt_loop_step
    require TokenType.rrb
    body ← self.parse_stmt
    pure (Stmt.loop init cond step body)

  -- A round of the loop of `parse_stmt_block`; a semicolon behind a statement is skipped.
  unfoldable pub block_stmt : Stmts → M Stmts
  block_stmt stmts = do
    stmt ← self.parse_stmt
    skipped ← accept TokenType.semicolon
    pure (push_stmt stmts stmt)

  -- parser_t::parse_stmt_block
  unfoldable pub parse_stmt_block : M Stmt
  parse_stmt_block = do
    require TokenType.lcb
    stmts ← until_token self.rounds TokenType.rcb block_stmt no_stmts
    pure (Stmt.block stmts)

module _ ⦃src : TokenSource⦄ ⦃conv : Conversions⦄ (self : Callees) where
  -- The switch of `parse_stmt`: what it calls, and whether a semicolon must follow.
  unfoldable pub stmt_case : TokenType → M Stmt × Bool
  stmt_case TokenType.struct = (parse_stmt_struct_def self, false)
  stmt_case TokenType.enum = (parse_stmt_enum_def self, false)
  stmt_case TokenType.proc = (parse_stmt_proc_def self, true)
  stmt_case TokenType.var = (parse_stmt_symbol_def self, true)
  stmt_case TokenType.val = (parse_stmt_symbol_def self, true)
  stmt_case TokenType.break = (parse_stmt_break self, true)
  stmt_case TokenType.continue = (parse_stmt_continue self, true)
  stmt_case TokenType.return = (parse_stmt_return self, true)
  stmt_case TokenType.if_kw = (parse_stmt_if self, false)
  stmt_case TokenType.loop = (parse_stmt_loop self, false)
  stmt_case TokenType.lcb = (parse_stmt_block self, false)
  stmt_case _ = (parse_stmt_assign_or_call self, true)

  -- `if(semicolon && !check_token(SEMICOLON)) return nullptr; return stmt;`
  unfoldable pub end_stmt : Bool → Option Stmt → M Stmt
  end_stmt semicolon stmt = do
    if semicolon then require TokenType.semicolon else pure tt
    elim stmt [ some s ↦ pure s | none ↦ return_null ]

  -- parser_t::parse_stmt
  unfoldable pub parse_stmt : M Stmt
  parse_stmt = do
    t ← token
    let chosen = stmt_case t.type
    stmt ← nullable chosen.0
    end_stmt chosen.1 stmt
