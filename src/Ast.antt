-- ===== src/Ast.antt =====
-- src/ast/header.h, src/ast/nodes.h: the operators and the nodes of the syntax tree.
-- A node is a value that holds its children; its `parent` pointer and its `category`, which the
-- constructor fixes, are not fields. A `std::map` is a list of its entries, newest last.
-- `MaybeExpr` and `MaybeStmt` are pointers that may be null.
pub mod Oper
pub mod Int
pub mod Map
pub mod Scopes
mod Tests
use eokas_lang.Prelude.{ℕ, Bool, Option, List, Bytes}
use eokas_lang.Ast.Oper.{BinaryOper, UnaryOper}
use eokas_lang.Ast.Int.{ℤ}

-- ast_node_type_t
mutual
  pub data TypeNode : Type 0 where
    type_node : Bytes → TypeNodes → TypeNode

  pub data TypeNodes : Type 0 where
    no_types : TypeNodes
    type_cons : TypeNode → TypeNodes → TypeNodes

-- ast_node_func_def_t::arg_t
pub record FuncArg : Type 0 where
  pub name : Bytes
  pub type : TypeNode

-- The subclasses of ast_node_expr_t and of ast_node_stmt_t, with the lists that they hold.
-- An `f64_t` is the number whose binary digits are its bits.
mutual
  pub data Expr : Type 0 where
    func_def : TypeNode → List FuncArg → Stmts → Expr
    func_ref : Expr → Exprs → Expr
    symbol_ref : Bytes → Expr
    trinary : Expr → Expr → Expr → Expr
    binary : BinaryOper → Expr → Expr → Expr
    unary : UnaryOper → Expr → Expr
    literal_int : ℤ → Expr
    literal_float : ℕ → Expr
    literal_bool : Bool → Expr
    literal_string : Bytes → Expr
    array_def : Exprs → Expr
    array_ref : Expr → Expr → Expr
    object_def : TypeNode → Fields → Expr
    object_ref : Expr → Bytes → Expr

  pub data Exprs : Type 0 where
    no_exprs : Exprs
    expr_cons : Expr → Exprs → Exprs

  pub data MaybeExpr : Type 0 where
    null_expr : MaybeExpr
    some_expr : Expr → MaybeExpr

  pub data Fields : Type 0 where
    no_fields : Fields
    field_cons : Bytes → Expr → Fields → Fields

  pub data Members : Type 0 where
    no_members : Members
    member_cons : Bytes → TypeNode → MaybeExpr → Bool → Members → Members

  pub data Stmt : Type 0 where
    struct_def : Bytes → Members → Stmt
    enum_def : Bytes → List (Bytes × ℤ) → Stmt
    proc_def : Bytes → TypeNode → List (Bytes × TypeNode) → Stmt
    symbol_def : Bytes → Option TypeNode → Expr → Bool → Stmt
    return : MaybeExpr → Stmt
    if_stmt : Expr → Stmt → MaybeStmt → Stmt
    loop : Stmt → Expr → Stmt → Stmt → Stmt
    break : Stmt
    continue : Stmt
    block : Stmts → Stmt
    assign : Expr → Expr → Stmt
    invoke : Expr → Stmt

  pub data MaybeStmt : Type 0 where
    null_stmt : MaybeStmt
    some_stmt : Stmt → MaybeStmt

  pub data Stmts : Type 0 where
    no_stmts : Stmts
    stmt_cons : Stmt → Stmts → Stmts

-- ast_node_module_t with ast_node_import_t and ast_node_export_t; `body` is that of `entry`.
pub record Module : Type 0 where
  pub imports : List (Bytes × Bytes)
  pub exports : List (Bytes × Unit {0})
  pub body : Stmts
