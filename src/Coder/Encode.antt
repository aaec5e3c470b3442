-- ===== src/Coder/Encode.antt =====
-- src/omis/x-module-coder.cpp: the walk over the syntax tree.
use eokas_lang.Prelude.{false, Option, none, some, [], codes}
use eokas_lang.Ast.{
  TypeNode, Expr, Exprs, no_exprs, expr_cons, MaybeExpr, null_expr, some_expr, Stmt, MaybeStmt,
  null_stmt, some_stmt, Stmts, no_stmts, stmt_cons, Module,
}
use eokas_lang.Omis.Bridge.{Bridge, BasicType}
use eokas_lang.Omis.State.{OmisType, OmisValue, M, ◌>>=◌, ◌>>◌, pure, return_null, nullable, modify}
use eokas_lang.Omis.Scopes.{add_value_symbol, push_scope, pop_scope}
use eokas_lang.Omis.Objects.{basic, value_float, value_bool, value_func}
use eokas_lang.Omis.Instructions.{create_block, set_active_block}
use eokas_lang.Omis.Control.{
  expr_branch, stmt_block, stmt_symbol_def, stmt_assign, stmt_return, stmt_branch, stmt_loop,
  stmt_break, stmt_continue, stmt_ensure_tail_ret,
}
use eokas_lang.Coder.Nodes.{
  encode_type_ref, encode_expr_binary, encode_expr_unary, encode_expr_int, encode_expr_symbol_ref,
  encode_expr_func_def, encode_expr_func_ref,
}

module _ ⦃B : Bridge⦄ where
  -- `lambda_type` of encode_stmt_symbol_def
  abbrev pub lambda_type : Option TypeNode → Option (M OmisType)
  lambda_type none = none
  lambda_type (some type) = some (encode_type_ref type)

  unfoldable mutual
    -- encode_stmt, with the methods for each kind of statement. There is no case for definitions of
    -- structs, enums and procs, nor for invoke.
    pub encode_stmt : Stmt → M (Unit {0})
    encode_stmt (Stmt.block stmts) = stmt_block (encode_stmts stmts)
    encode_stmt (Stmt.symbol_def name type value variable) =
        stmt_symbol_def name (lambda_type type) (encode_expr value)
    encode_stmt (Stmt.assign left right) = stmt_assign (encode_expr left) (encode_expr right)
    encode_stmt (Stmt.return value) = stmt_return (encode_value value)
    encode_stmt (Stmt.if_stmt cond branch_true branch_false) =
        stmt_branch (encode_expr cond) (encode_stmt branch_true) (encode_branch branch_false)
    encode_stmt (Stmt.loop init cond step body) =
        stmt_loop (encode_stmt init) (encode_expr cond) (encode_stmt step) (encode_stmt body)
    encode_stmt Stmt.break = stmt_break
    encode_stmt Stmt.continue = stmt_continue
    encode_stmt _ = return_null

    -- The loops over the statements of a block, of a function and of a module.
    pub encode_stmts : Stmts → M (Unit {0})
    encode_stmts no_stmts = pure tt
    encode_stmts (stmt_cons stmt stmts) = encode_stmt stmt >> encode_stmts stmts

    -- `branch_false` of encode_stmt_if
    pub encode_branch : MaybeStmt → M (Unit {0})
    encode_branch null_stmt = pure tt
    encode_branch (some_stmt stmt) = encode_stmt stmt

    -- `value` of encode_stmt_return
    pub encode_value : MaybeExpr → Option (M OmisValue)
    encode_value null_expr = none
    encode_value (some_expr value) = some (encode_expr value)

    -- encode_expr, with the methods for each kind of expression. There is no case for arrays and
    -- objects, and none for strings returns a value.
    pub encode_expr : Expr → M OmisValue
    encode_expr (Expr.trinary cond branch_true branch_false) =
        expr_branch (encode_expr cond) (encode_expr branch_true) (encode_expr branch_false)
    encode_expr (Expr.binary op left right) =
        encode_expr_binary op (encode_expr left) (encode_expr right)
    encode_expr (Expr.unary op right) = encode_expr_unary op (encode_expr right)
    encode_expr (Expr.literal_int value) = encode_expr_int value
    encode_expr (Expr.literal_float value) = value_float value
    encode_expr (Expr.literal_bool value) = value_bool value
    encode_expr (Expr.symbol_ref name) = encode_expr_symbol_ref name
    encode_expr (Expr.func_def rtype args body) =
        encode_expr_func_def rtype args (encode_stmts body)
    encode_expr (Expr.func_ref func args) =
        encode_expr_func_ref (encode_expr func) (encode_first args)
    encode_expr _ = return_null

    -- The first argument of a call.
    pub encode_first : Exprs → Option (M OmisValue)
    encode_first no_exprs = none
    encode_first (expr_cons arg args) = some (encode_expr arg)

  -- encode_module
  unfoldable pub encode_module : Module → M (Unit {0})
  encode_module node = do
    ret ← basic BasicType.i32
    func ← value_func (codes "$main") ret [] false
    added ← nullable (add_value_symbol (codes "$main") func)
    modify (λ s. record s { scope = record s.scope { func = some func } })
    push_scope (some func)
    entry ← create_block (codes "entry")
    set_active_block entry
    encode_stmts node.body
    stmt_ensure_tail_ret func
    pop_scope
