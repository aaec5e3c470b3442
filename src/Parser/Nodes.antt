-- ===== src/Parser/Nodes.antt =====
-- src/ast/nodes.h: `push_back` and map assignment on the lists inside nodes, and the arguments of
-- a function definition.
use eokas_lang.Prelude.{Bool, true, false, ◌||◌, List, [], ◌∷◌, Bytes, bytes_eq, if◌then◌else◌}
use eokas_lang.Ast.{
  TypeNode, TypeNodes, no_types, type_cons, FuncArg, Expr, Exprs, no_exprs, expr_cons, Fields,
  no_fields, field_cons, MaybeExpr, Members, no_members, member_cons, Stmt, Stmts, no_stmts,
  stmt_cons,
}

unfoldable pub push_type : TypeNodes → TypeNode → TypeNodes
push_type no_types t = type_cons t no_types
push_type (type_cons u us) t = type_cons u (push_type us t)

unfoldable pub push_expr : Exprs → Expr → Exprs
push_expr no_exprs e = expr_cons e no_exprs
push_expr (expr_cons d ds) e = expr_cons d (push_expr ds e)

unfoldable pub push_stmt : Stmts → Stmt → Stmts
push_stmt no_stmts t = stmt_cons t no_stmts
push_stmt (stmt_cons u us) t = stmt_cons u (push_stmt us t)

unfoldable pub push_member : Members → Bytes → TypeNode → MaybeExpr → Bool → Members
push_member no_members name type value is_const = member_cons name type value is_const no_members
push_member (member_cons n t v c ms) name type value is_const =
    member_cons n t v c (push_member ms name type value is_const)

-- `args.empty()`
unfoldable pub types_empty : TypeNodes → Bool
types_empty no_types = true
types_empty (type_cons t ts) = false

unfoldable pub exprs_empty : Exprs → Bool
exprs_empty no_exprs = true
exprs_empty (expr_cons e es) = false

-- `members[key] = expr`
unfoldable pub set_field : Bytes → Expr → Fields → Fields
set_field key value no_fields = field_cons key value no_fields
set_field key value (field_cons k v rest) =
    if bytes_eq k key then field_cons k value rest else field_cons k v (set_field key value rest)

-- ast_node_func_def_t::getArg, as a test for null
unfoldable pub get_arg : Bytes → List FuncArg → Bool
get_arg name [] = false
get_arg name (a ∷ rest) = bytes_eq a.name name || get_arg name rest

-- ast_node_struct_def_t::getMember, as a test for null
unfoldable pub get_member : Bytes → Members → Bool
get_member name no_members = false
get_member name (member_cons n t v c rest) = bytes_eq n name || get_member name rest
