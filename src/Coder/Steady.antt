-- ===== src/Coder/Steady.antt =====
-- The code generator of src/omis/x-module-coder.cpp restores the scopes that it enters.
use eokas_lang.Prelude.{ℕ, ◌+◌, ◌≡◌, true, false, Option, none, some, List, [], ◌∷◌, Bytes, codes}
use eokas_lang.Ast.{
  TypeNode, type_node, FuncArg, Expr, Exprs, no_exprs, expr_cons, MaybeExpr, null_expr, some_expr,
  Stmt, MaybeStmt, null_stmt, some_stmt, Stmts, no_stmts, stmt_cons,
}
use eokas_lang.Ast.Oper.{BinaryOper, UnaryOper}
use eokas_lang.Ast.Int.{ℤ}
use eokas_lang.Parser.Monad.{done}
use eokas_lang.Omis.Bridge.{Bridge}
use eokas_lang.Omis.State.{OmisType, OmisValue, OmisModule, M}
use eokas_lang.Omis.Scopes.{get_type_symbol, get_value_symbol}
use eokas_lang.Omis.Control.{both}
use eokas_lang.Coder.Nodes.{
  encode_type_ref, binary_code, encode_expr_binary, unary_code, encode_expr_unary, encode_expr_int,
  encode_expr_symbol_ref, pass_type, arg_types, name_args, encode_expr_func_def,
  encode_expr_func_ref,
}
use eokas_lang.Coder.Encode.{
  lambda_type, encode_stmt, encode_stmts, encode_branch, encode_value, encode_expr, encode_first,
}
use eokas_lang.Omis.Steady.Rules.{
  Restores, Steady, faulted, Kept-done, Steady-pure, Steady-null, Steady-ask, Steady-if,
  Steady-option, Steady-bind,
}
use eokas_lang.Omis.Steady.Objects.{
  value_integer-Steady, value_float-Steady, value_bool-Steady, value_func-Steady,
  type_pointer-Steady, get_func_arg_type-Steady, get_func_arg_value-Steady,
}
use eokas_lang.Omis.Steady.Instructions.{
  get_type_symbol-Steady, get_value_symbol-Steady, create_block-Steady, set_active_block-Steady,
  unary_same-Steady, unary_bool-Steady, arithmetic-Steady, comparison-Steady, bitwise-Steady,
  call-Steady, get_ptr_val-Steady,
}
use eokas_lang.Omis.Steady.Scoped.{
  Below-bind, Below-pop_pure, Steady-push, both-Steady, add_value_symbol-Steady,
  nullable-add_value_symbol-Steady,
}
use eokas_lang.Omis.Symbols.{stmt_block-scopes}
use eokas_lang.Omis.Steady.Control.{
  MaybeSteady, expr_branch-Steady, stmt_block-Steady, stmt_symbol_def-Steady, stmt_assign-Steady,
  stmt_return-Steady, stmt_branch-Steady, stmt_loop-Steady, stmt_break-Steady, stmt_continue-Steady,
  stmt_ensure_tail_ret-Steady,
}

module _ ⦃B : Bridge⦄ where
  ruleset nodes = (Steady-bind, Steady-pure, Steady-null, Steady-ask, Steady-if, get_ptr_val-Steady)

  pub encode_type_ref-Steady : (t : TypeNode) → Steady (encode_type_ref t)
  unfolding encode_type_ref
  encode_type_ref-Steady (type_node name args) =
      Steady-bind (get_type_symbol name true) _ (get_type_symbol-Steady name true)
        λ o. Steady-option o _ _ Steady-pure Steady-null

  binary_code-Steady : (op : BinaryOper) (l r : OmisValue) → Steady (binary_code op l r)
  unfolding binary_code
  binary_code-Steady BinaryOper.unknown l r = Steady-null
  binary_code-Steady _ l r = search (arithmetic-Steady, comparison-Steady, bitwise-Steady)

  unary_code-Steady : (op : UnaryOper) (r : OmisValue) → Steady (unary_code op r)
  unfolding unary_code
  unary_code-Steady UnaryOper.pos r = Steady-pure r
  unary_code-Steady _ r = search (unary_same-Steady, unary_bool-Steady, Steady-null)

  encode_expr_binary-Steady :
      (op : BinaryOper) (l r : M OmisValue)
      → Steady l
      → Steady r
      → Steady (encode_expr_binary op l r)
  unfolding encode_expr_binary
  encode_expr_binary-Steady op l r hl hr =
      Steady-bind (both l r) _ (both-Steady l r hl hr) λ p. search (nodes, binary_code-Steady)

  encode_expr_unary-Steady :
      (op : UnaryOper) (r : M OmisValue) → Steady r → Steady (encode_expr_unary op r)
  unfolding encode_expr_unary
  encode_expr_unary-Steady op r h = search (nodes, unary_code-Steady)

  encode_expr_int-Steady : (z : ℤ) → Steady (encode_expr_int z)
  unfolding encode_expr_int
  encode_expr_int-Steady z = value_integer-Steady _ _

  encode_expr_symbol_ref-Steady : (name : Bytes) → Steady (encode_expr_symbol_ref name)
  unfolding encode_expr_symbol_ref
  encode_expr_symbol_ref-Steady name =
      Steady-bind (get_value_symbol name true) _ (get_value_symbol-Steady name true)
        λ o. Steady-option o _ _ (λ v. Steady-pure v.value) Steady-null

  pass_type-Steady : (t : OmisType) → Steady (pass_type t)
  unfolding pass_type
  pass_type-Steady t = search (nodes, type_pointer-Steady) depth 12

  arg_types-Steady : (args : List FuncArg) → Steady (arg_types args)
  unfolding arg_types
  arg_types-Steady [] = Steady-pure []
  arg_types-Steady (a ∷ args) =
      Steady-bind (encode_type_ref a.type) _ (encode_type_ref-Steady a.type) λ type.
        Steady-bind (pass_type type) _ (pass_type-Steady type) λ passed.
          Steady-bind (arg_types args) _ (arg_types-Steady args) λ rest. Steady-pure (passed ∷ rest)

  name_args-Steady :
      (func : OmisValue) (i : ℕ) (args : List FuncArg) → Steady (name_args func i args)
  unfolding name_args
  name_args-Steady func i [] = Steady-pure tt
  name_args-Steady func i (a ∷ args) =
      let rest = name_args-Steady func (i + 1) args in
      search (nodes, get_func_arg_value-Steady, add_value_symbol-Steady) depth 8

  encode_expr_func_def-Steady :
      (t : TypeNode) (args : List FuncArg) (body : M (Unit {0}))
      → Steady body
      → Steady (encode_expr_func_def t args body)
  unfolding encode_expr_func_def
  encode_expr_func_def-Steady t args body h =
      Steady-bind (encode_type_ref t) _ (encode_type_ref-Steady t) λ ret_type.
        Steady-bind (arg_types args) _ (arg_types-Steady args) λ types.
          Steady-bind _ _ (value_func-Steady (codes "") ret_type types false) λ func.
            Steady-push (some func) _ λ s.
              Below-bind s _ _ (create_block-Steady (codes "entry")) λ entry.
                Below-bind s _ _ (set_active_block-Steady entry) λ _.
                  Below-bind s _ _ (nullable-add_value_symbol-Steady (codes "self") func) λ _.
                    Below-bind s _ _ (name_args-Steady func 0 args) λ _. Below-bind s body _ h λ _.
                      Below-bind s _ _ (stmt_ensure_tail_ret-Steady func) λ _. Below-pop_pure s func

  encode_expr_func_ref-Steady :
      (callee : M OmisValue) (arg : Option (M OmisValue))
      → Steady callee
      → MaybeSteady arg
      → Steady (encode_expr_func_ref callee arg)
  unfolding encode_expr_func_ref
  encode_expr_func_ref-Steady callee none h g =
      Steady-bind callee _ h
        λ e. Steady-bind _ _ (get_ptr_val-Steady e) λ f. record { at = λ s. faulted }
  encode_expr_func_ref-Steady callee (some arg) h g =
      search (nodes, get_func_arg_type-Steady, call-Steady) depth 12

  pub lambda_type-Steady : (t : Option TypeNode) → MaybeSteady (lambda_type t)
  lambda_type-Steady none = tt
  lambda_type-Steady (some t) = encode_type_ref-Steady t

  mutual
    unfolding encode_stmt encode_stmts encode_branch encode_value encode_expr encode_first

    pub encode_stmt-Steady : (stmt : Stmt) → Steady (encode_stmt stmt)
    encode_stmt-Steady (Stmt.block stmts) = stmt_block-Steady _ (encode_stmts-Steady stmts)
    encode_stmt-Steady (Stmt.symbol_def name type value variable) =
        stmt_symbol_def-Steady name _ _ (lambda_type-Steady type) (encode_expr-Steady value)
    encode_stmt-Steady (Stmt.assign left right) =
        stmt_assign-Steady _ _ (encode_expr-Steady left) (encode_expr-Steady right)
    encode_stmt-Steady (Stmt.return value) = stmt_return-Steady _ (encode_value-Steady value)
    encode_stmt-Steady (Stmt.if_stmt cond t f) =
        stmt_branch-Steady _ _ _ (encode_expr-Steady cond) (encode_stmt-Steady t)
          (encode_branch-Steady f)
    encode_stmt-Steady (Stmt.loop init cond step body) =
        stmt_loop-Steady _ _ _ _ (encode_stmt-Steady init) (encode_expr-Steady cond)
          (encode_stmt-Steady step) (encode_stmt-Steady body)
    encode_stmt-Steady Stmt.break = stmt_break-Steady
    encode_stmt-Steady Stmt.continue = stmt_continue-Steady
    encode_stmt-Steady _ = Steady-null

    pub encode_stmts-Steady : (stmts : Stmts) → Steady (encode_stmts stmts)
    encode_stmts-Steady no_stmts = Steady-pure tt
    encode_stmts-Steady (stmt_cons stmt stmts) =
        Steady-bind (encode_stmt stmt) _ (encode_stmt-Steady stmt) λ _. encode_stmts-Steady stmts

    encode_branch-Steady : (stmt : MaybeStmt) → Steady (encode_branch stmt)
    encode_branch-Steady null_stmt = Steady-pure tt
    encode_branch-Steady (some_stmt stmt) = encode_stmt-Steady stmt

    pub encode_value-Steady : (value : MaybeExpr) → MaybeSteady (encode_value value)
    encode_value-Steady null_expr = tt
    encode_value-Steady (some_expr value) = encode_expr-Steady value

    pub encode_expr-Steady : (expr : Expr) → Steady (encode_expr expr)
    encode_expr-Steady (Expr.trinary cond t f) =
        expr_branch-Steady _ _ _ (encode_expr-Steady cond) (encode_expr-Steady t)
          (encode_expr-Steady f)
    encode_expr-Steady (Expr.binary op left right) =
        encode_expr_binary-Steady op _ _ (encode_expr-Steady left) (encode_expr-Steady right)
    encode_expr-Steady (Expr.unary op right) =
        encode_expr_unary-Steady op _ (encode_expr-Steady right)
    encode_expr-Steady (Expr.literal_int value) = encode_expr_int-Steady value
    encode_expr-Steady (Expr.literal_float value) = value_float-Steady value
    encode_expr-Steady (Expr.literal_bool value) = value_bool-Steady value
    encode_expr-Steady (Expr.symbol_ref name) = encode_expr_symbol_ref-Steady name
    encode_expr-Steady (Expr.func_def rtype args body) =
        encode_expr_func_def-Steady rtype args _ (encode_stmts-Steady body)
    encode_expr-Steady (Expr.func_ref func args) =
        encode_expr_func_ref-Steady _ _ (encode_expr-Steady func) (encode_first-Steady args)
    encode_expr-Steady _ = Steady-null

    encode_first-Steady : (args : Exprs) → MaybeSteady (encode_first args)
    encode_first-Steady no_exprs = tt
    encode_first-Steady (expr_cons arg args) = encode_expr-Steady arg

  -- A statement that is encoded leaves the enclosing scopes, the function, the types and the targets of
  -- `break` and `continue` as they were, and only adds symbols to the current scope.
  pub encode_stmt-Restores :
      (stmt : Stmt) (s t : OmisModule) → encode_stmt stmt s ≡ done tt t → Restores s t
  encode_stmt-Restores stmt s t e = (Kept-done ((encode_stmt-Steady stmt).at s) e).restores

  -- So does an expression.
  pub encode_expr-Restores :
      (expr : Expr) (v : OmisValue) (s t : OmisModule)
      → encode_expr expr s ≡ done v t
      → Restores s t
  encode_expr-Restores expr v s t e = (Kept-done ((encode_expr-Steady expr).at s) e).restores

  -- After a block that is encoded, the scopes are those from before it: what was defined in it is not found
  -- any more, and what it hid is found again.
  pub encode_stmt-block :
      (stmts : Stmts) (s t : OmisModule)
      → encode_stmt (Stmt.block stmts) s ≡ done tt t
      → (t.scope ≡ s.scope) × (t.parents ≡ s.parents)
  unfolding encode_stmt
  encode_stmt-block stmts s t e =
      stmt_block-scopes (encode_stmts stmts) s t (encode_stmts-Steady stmts) e
