-- ===== src/Coder/Encodable.antt =====
-- The syntax trees that src/omis/x-module-coder.cpp has code for.
use eokas_lang.Prelude.{Bool, true, false, Option, none, some}
use eokas_lang.Ast.{
  TypeNode, Expr, Exprs, no_exprs, expr_cons, MaybeExpr, null_expr, some_expr, Stmt, MaybeStmt,
  null_stmt, some_stmt, Stmts, no_stmts, stmt_cons,
}
use eokas_lang.Ast.Oper.{BinaryOper, UnaryOper}

-- The unary operators that have a case.
abbrev pub IsCoded : UnaryOper → Type 0
IsCoded UnaryOper.pos = Unit
IsCoded UnaryOper.neg = Unit
IsCoded UnaryOper.not = Unit
IsCoded UnaryOper.flip = Unit
IsCoded _ = ⊥

abbrev pub IsKnown : BinaryOper → Type 0
IsKnown BinaryOper.unknown = ⊥
IsKnown _ = Unit

abbrev pub HasNoType : Option TypeNode → Type 0
HasNoType none = Unit
HasNoType (some type) = ⊥

abbrev pub HasTarget : Bool → Type 0
HasTarget true = Unit
HasTarget false = ⊥

unfoldable mutual
  -- The trees with code: no definitions of functions and types, no declared types, no statement
  -- that is a call, no strings, arrays and objects, and no call without an argument; of a call
  -- only the first argument counts. `in_loop` tells whether a loop is around: `break` and `continue`
  -- need one.
  pub IsEncodable : Bool → Stmt → Type 0
  IsEncodable in_loop (Stmt.block stmts) = AllEncodable in_loop stmts
  IsEncodable in_loop (Stmt.symbol_def name type value variable) = HasNoType type × HasCode value
  IsEncodable in_loop (Stmt.assign left right) = HasCode left × HasCode right
  IsEncodable in_loop (Stmt.return value) = MaybeHasCode value
  IsEncodable in_loop (Stmt.if_stmt cond branch_true branch_false) =
      HasCode cond × (IsEncodable in_loop branch_true × MaybeEncodable in_loop branch_false)
  IsEncodable in_loop (Stmt.loop init cond step body) =
      IsEncodable true init × (HasCode cond × (IsEncodable true step × IsEncodable true body))
  IsEncodable in_loop Stmt.break = HasTarget in_loop
  IsEncodable in_loop Stmt.continue = HasTarget in_loop
  IsEncodable in_loop _ = ⊥

  pub AllEncodable : Bool → Stmts → Type 0
  AllEncodable in_loop no_stmts = Unit
  AllEncodable in_loop (stmt_cons stmt stmts) =
      IsEncodable in_loop stmt × AllEncodable in_loop stmts

  pub MaybeEncodable : Bool → MaybeStmt → Type 0
  MaybeEncodable in_loop null_stmt = Unit
  MaybeEncodable in_loop (some_stmt stmt) = IsEncodable in_loop stmt

  pub MaybeHasCode : MaybeExpr → Type 0
  MaybeHasCode null_expr = Unit
  MaybeHasCode (some_expr value) = HasCode value

  pub HasCode : Expr → Type 0
  HasCode (Expr.trinary cond branch_true branch_false) =
      HasCode cond × (HasCode branch_true × HasCode branch_false)
  HasCode (Expr.binary op left right) = IsKnown op × (HasCode left × HasCode right)
  HasCode (Expr.unary op right) = IsCoded op × HasCode right
  HasCode (Expr.literal_int value) = Unit
  HasCode (Expr.literal_float value) = Unit
  HasCode (Expr.literal_bool value) = Unit
  HasCode (Expr.symbol_ref name) = Unit
  HasCode (Expr.func_ref func args) = HasCode func × FirstHasCode args
  HasCode _ = ⊥

  pub FirstHasCode : Exprs → Type 0
  FirstHasCode no_exprs = ⊥
  FirstHasCode (expr_cons arg args) = HasCode arg
