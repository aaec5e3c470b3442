-- ===== src/Coder/Limits.antt =====
-- Which syntax trees src/omis/x-module-coder.cpp generates code for, in a module whose scopes name
-- no types: as nothing in the program adds a type symbol, those are its modules.
use eokas_lang.Prelude.{◌≡◌, Bool, true, false, none, some, [], codes}
use eokas_lang.Ast.{
  Expr, Exprs, no_exprs, expr_cons, MaybeExpr, null_expr, some_expr, Stmt, MaybeStmt, null_stmt,
  some_stmt, Stmts, no_stmts, stmt_cons, Module,
}
use eokas_lang.Parser.Monad.{done}
use eokas_lang.Omis.Bridge.{Bridge, BasicType}
use eokas_lang.Omis.State.{OmisValue, OmisModule}
use eokas_lang.Omis.Steady.Instructions.{create_block-Steady, set_active_block-Steady}
use eokas_lang.Omis.Steady.Scoped.{nullable-add_value_symbol-Steady}
use eokas_lang.Omis.Steady.Objects.{basic-Steady, value_func-Steady}
use eokas_lang.Coder.Nodes.{encode_expr_func_ref}
use eokas_lang.Coder.Encode.{
  encode_stmt, encode_stmts, encode_branch, encode_value, encode_expr, encode_first, encode_module,
}
use eokas_lang.Coder.Steady.{encode_stmt-Steady, encode_expr-Steady, lambda_type-Steady}
use eokas_lang.Coder.Demands.{
  Untyped, Ready, Shows-done, Demands, Demands-all, Demands-null, Demands-first, Demands-later,
  Demands-push, Demands-modify, Demands-and, MaybeDemands,
}
use eokas_lang.Coder.Encodable.{
  IsEncodable, AllEncodable, MaybeEncodable, MaybeHasCode, HasCode, FirstHasCode,
}
use eokas_lang.Coder.Loops.{stmt_loop-init, stmt_loop-cond, stmt_loop-body, stmt_loop-step}
use eokas_lang.Coder.Parts.{
  expr_branch-cond, expr_branch-true, expr_branch-false, stmt_branch-cond, stmt_branch-true,
  stmt_branch-false, stmt_assign-left, stmt_assign-right, encode_expr_binary-left,
  encode_expr_binary-right, encode_expr_unary-right, stmt_block-body, stmt_symbol_def-type,
  stmt_symbol_def-value, stmt_return-value, encode_expr_func_ref-callee, encode_expr_func_ref-arg,
}
use eokas_lang.Coder.NodeLimits.{
  lambda_type-Demands, encode_expr_binary-oper, encode_expr_unary-oper, no_argument-Demands,
  func_def-Demands, stmt_break-Demands, stmt_continue-Demands,
}

module _ ⦃B : Bridge⦄ where
  mutual
    unfolding encode_stmt encode_stmts encode_branch encode_value encode_expr encode_first
        IsEncodable AllEncodable MaybeEncodable MaybeHasCode HasCode FirstHasCode

    encode_stmt-Demands :
        (in_loop : Bool) (stmt : Stmt)
        → Demands in_loop (IsEncodable in_loop stmt) (encode_stmt stmt)
    encode_stmt-Demands in_loop (Stmt.block stmts) =
        stmt_block-body _ (encode_stmts-Demands in_loop stmts)
    encode_stmt-Demands in_loop (Stmt.symbol_def name type value variable) =
        Demands-and (stmt_symbol_def-type name _ _ (lambda_type-Demands in_loop type)) (
          stmt_symbol_def-value name _ _ (lambda_type-Steady type)
            (encode_expr-Demands in_loop value))
    encode_stmt-Demands in_loop (Stmt.assign left right) =
        Demands-and (stmt_assign-left _ _ (encode_expr-Demands in_loop left))
          (stmt_assign-right _ _ (encode_expr-Steady left) (encode_expr-Demands in_loop right))
    encode_stmt-Demands in_loop (Stmt.return value) =
        stmt_return-value _ (encode_value-Demands in_loop value)
    encode_stmt-Demands in_loop (Stmt.if_stmt cond t f) =
        Demands-and
          (stmt_branch-cond _ _ _ (encode_expr-Steady cond) (encode_stmt-Steady t)
            (encode_expr-Demands in_loop cond))
          (Demands-and
            (stmt_branch-true _ _ _ (encode_expr-Steady cond) (encode_stmt-Steady t)
              (encode_stmt-Demands in_loop t))
            (stmt_branch-false _ _ _ (encode_expr-Steady cond) (encode_stmt-Steady t)
              (encode_branch-Demands in_loop f)))
    encode_stmt-Demands in_loop (Stmt.loop init cond step body) =
        Demands-and
          (stmt_loop-init _ _ _ _ (encode_stmt-Steady init) (encode_expr-Steady cond)
            (encode_stmt-Steady body) (encode_stmt-Demands true init))
          (Demands-and
            (stmt_loop-cond _ _ _ _ (encode_stmt-Steady init) (encode_expr-Steady cond)
              (encode_stmt-Steady body) (encode_expr-Demands true cond))
            (Demands-and
              (stmt_loop-step _ _ _ _ (encode_stmt-Steady init) (encode_expr-Steady cond)
                (encode_stmt-Steady body) (encode_stmt-Demands true step))
              (stmt_loop-body _ _ _ _ (encode_stmt-Steady init) (encode_expr-Steady cond)
                (encode_stmt-Steady body) (encode_stmt-Demands true body))))
    encode_stmt-Demands in_loop Stmt.break = stmt_break-Demands in_loop
    encode_stmt-Demands in_loop Stmt.continue = stmt_continue-Demands in_loop
    encode_stmt-Demands in_loop _ = Demands-null

    encode_stmts-Demands :
        (in_loop : Bool) (stmts : Stmts)
        → Demands in_loop (AllEncodable in_loop stmts) (encode_stmts stmts)
    encode_stmts-Demands in_loop no_stmts = Demands-all _ tt
    encode_stmts-Demands in_loop (stmt_cons stmt stmts) =
        Demands-and (Demands-first (encode_stmt stmt) _ (encode_stmt-Demands in_loop stmt)) (
          Demands-later (encode_stmt stmt) _ (encode_stmt-Steady stmt)
            λ _. encode_stmts-Demands in_loop stmts)

    encode_branch-Demands :
        (in_loop : Bool) (stmt : MaybeStmt)
        → Demands in_loop (MaybeEncodable in_loop stmt) (encode_branch stmt)
    encode_branch-Demands in_loop null_stmt = Demands-all _ tt
    encode_branch-Demands in_loop (some_stmt stmt) = encode_stmt-Demands in_loop stmt

    encode_value-Demands :
        (in_loop : Bool) (value : MaybeExpr)
        → MaybeDemands in_loop (MaybeHasCode value) (encode_value value)
    encode_value-Demands in_loop null_expr = tt
    encode_value-Demands in_loop (some_expr value) = encode_expr-Demands in_loop value

    encode_expr-Demands :
        (in_loop : Bool) (expr : Expr) → Demands in_loop (HasCode expr) (encode_expr expr)
    encode_expr-Demands in_loop (Expr.trinary cond t f) =
        Demands-and
          (expr_branch-cond _ _ _ (encode_expr-Steady cond) (encode_expr-Steady t)
            (encode_expr-Demands in_loop cond))
          (Demands-and
            (expr_branch-true _ _ _ (encode_expr-Steady cond) (encode_expr-Steady t)
              (encode_expr-Demands in_loop t))
            (expr_branch-false _ _ _ (encode_expr-Steady cond) (encode_expr-Steady t)
              (encode_expr-Demands in_loop f)))
    encode_expr-Demands in_loop (Expr.binary op left right) =
        Demands-and
          (encode_expr_binary-oper op _ _ (encode_expr-Steady left) (encode_expr-Steady right))
          (Demands-and (encode_expr_binary-left _ _ op (encode_expr-Demands in_loop left)) (
            encode_expr_binary-right _ _ op (encode_expr-Steady left)
              (encode_expr-Demands in_loop right)))
    encode_expr-Demands in_loop (Expr.unary op right) =
        Demands-and (encode_expr_unary-oper op _ (encode_expr-Steady right))
          (encode_expr_unary-right op _ (encode_expr-Demands in_loop right))
    encode_expr-Demands in_loop (Expr.literal_int value) = Demands-all _ tt
    encode_expr-Demands in_loop (Expr.literal_float value) = Demands-all _ tt
    encode_expr-Demands in_loop (Expr.literal_bool value) = Demands-all _ tt
    encode_expr-Demands in_loop (Expr.symbol_ref name) = Demands-all _ tt
    encode_expr-Demands in_loop (Expr.func_def rtype args body) = func_def-Demands rtype args _
    encode_expr-Demands in_loop (Expr.func_ref func args) =
        Demands-and (encode_expr_func_ref-callee _ _ (encode_expr-Demands in_loop func))
          (first-Demands in_loop func args)
    encode_expr-Demands in_loop _ = Demands-null

    first-Demands :
        (in_loop : Bool) (func : Expr) (args : Exprs)
        → Demands in_loop
            (FirstHasCode args)
            (encode_expr_func_ref (encode_expr func) (encode_first args))
    first-Demands in_loop func no_exprs = no_argument-Demands _ (encode_expr-Steady func)
    first-Demands in_loop func (expr_cons arg args) =
        encode_expr_func_ref-arg _ _ (encode_expr-Steady func) (encode_expr-Demands in_loop arg)

  -- In a module whose scopes name no types, and with no targets of `break` and `continue`, a statement that
  -- is encoded is one of the trees that are encodable outside of loops.
  pub encode_stmt-IsEncodable :
      (stmt : Stmt) (s t : OmisModule)
      → Untyped s
      → s.break_point ≡ none
      → s.continue_point ≡ none
      → encode_stmt stmt s ≡ done tt t
      → IsEncodable false stmt
  encode_stmt-IsEncodable stmt s t u p q e =
      Shows-done ((encode_stmt-Demands false stmt).at s (u, (p, q))) e

  -- The module with another function for its scope.
  renamed :
      (in_loop : Bool) (func : OmisValue) (s : OmisModule)
      → Ready in_loop s
      → Ready in_loop (record s { scope = record s.scope { func = some func } })
  renamed true func s u = u
  renamed false func s u = u

  encode_module-Demands :
      (in_loop : Bool) (node : Module)
      → Demands in_loop (AllEncodable in_loop node.body) (encode_module node)
  unfolding encode_module
  encode_module-Demands in_loop node = Demands-later _ _ (basic-Steady BasicType.i32) λ ret.
      Demands-later _ _ (value_func-Steady (codes "$main") ret [] false) λ func.
        Demands-later _ _ (nullable-add_value_symbol-Steady (codes "$main") func) λ _.
          Demands-modify (λ s. record s { scope = record s.scope { func = some func } }) _
            (renamed in_loop func)
            (Demands-push (some func) _ (
              Demands-later _ _ (create_block-Steady (codes "entry")) λ entry.
                Demands-later _ _ (set_active_block-Steady entry) λ _.
                  Demands-first (encode_stmts node.body) _
                    (encode_stmts-Demands in_loop node.body)))

  -- In a module whose scopes name no types, and with no targets of `break` and `continue`, a syntax tree that
  -- is encoded has only statements that are encodable outside of loops.
  pub encode_module-AllEncodable :
      (node : Module) (s t : OmisModule)
      → Untyped s
      → s.break_point ≡ none
      → s.continue_point ≡ none
      → encode_module node s ≡ done tt t
      → AllEncodable false node.body
  encode_module-AllEncodable node s t u p q e =
      Shows-done ((encode_module-Demands false node).at s (u, (p, q))) e
