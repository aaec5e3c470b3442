-- ===== src/Parser/Stmts/Definitions.antt =====
-- src/app/parser.cxx: the statements that define structs, enums, procs and symbols.
use eokas_lang.Prelude.{Bool, true, false, ◌||◌, Bytes, List, [], Option, none, some, if◌then◌else◌}
use eokas_lang.Token.{TokenType}
use eokas_lang.Ast.{TypeNode, Stmt, Members, no_members, MaybeExpr, null_expr, some_expr}
use eokas_lang.Ast.Int.{ℤ, pos, to_i32, next_i32}
use eokas_lang.Ast.Map.{has_key, insert}
use eokas_lang.Parser.Nodes.{push_member, get_member}
use eokas_lang.Parser.Source.{TokenSource, Conversions}
use eokas_lang.Parser.Monad.{M, ◌>>=◌, ◌>>◌, pure, return_null, token, next_token}
use eokas_lang.Parser.Checks.{accept, require, require_id, check_token, error_token_unexpected}
use eokas_lang.Parser.Loops.{Callees, separated}
use eokas_lang.Parser.Literals.{parse_literal_int}

-- The switch of `parse_stmt_struct_member`, from `default` upwards: no case ends in a `break`, and
-- `none` is the `return false` of the default.
abbrev case_default : Bool → Option Bool
case_default is_const = none

abbrev case_var : Bool → Option Bool
case_var is_const = case_default false

abbrev case_val : Bool → Option Bool
case_val is_const = case_var true

unfoldable pub member_const : TokenType → Option Bool
member_const TokenType.val = case_val false
member_const TokenType.var = case_var false
member_const _ = case_default false

module _ ⦃src : TokenSource⦄ (self : Callees) where
  -- `[= expr]` of a struct member
  unfoldable pub member_value : M MaybeExpr
  member_value = do
    assigns ← accept TokenType.assign
    if assigns then (do e ← self.parse_expr; pure (some_expr e)) else pure null_expr

  -- parse_stmt_struct_member, behind its switch
  unfoldable pub struct_member_rest : Bool → Members → M Members
  struct_member_rest is_const members = do
    next_token
    name ← require_id
    if get_member name members then (do error_token_unexpected; return_null) else pure tt
    next_token
    require TokenType.colon
    type ← self.parse_type
    value ← member_value
    pure (push_member members name type value is_const)

  -- parser_t::parse_stmt_struct_member
  unfoldable pub parse_stmt_struct_member : Members → M Members
  parse_stmt_struct_member members = do
    t ← token
    elim (member_const t.type) [
      | some is_const ↦ struct_member_rest is_const members
      | none ↦ return_null
    ]

  -- parser_t::parse_stmt_struct_def
  unfoldable pub parse_stmt_struct_def : M Stmt
  parse_stmt_struct_def = do
    require TokenType.struct
    name ← require_id
    next_token
    require TokenType.lcb
    members ←
        separated self.rounds TokenType.rcb TokenType.semicolon parse_stmt_struct_member no_members
    require TokenType.rcb
    pure (Stmt.struct_def name members)

  -- A round of the loop of `parse_stmt_proc_def`.
  unfoldable pub proc_arg : List (Bytes × TypeNode) → M (List (Bytes × TypeNode))
  proc_arg args = do
    name ← require_id
    if has_key name args then (do error_token_unexpected; return_null) else pure tt
    next_token
    require TokenType.colon
    type ← self.parse_type
    pure (insert name type args)

  -- parser_t::parse_stmt_proc_def
  unfoldable pub parse_stmt_proc_def : M Stmt
  parse_stmt_proc_def = do
    require TokenType.proc
    name ← require_id
    next_token
    require TokenType.lrb
    args ← separated self.rounds TokenType.rrb TokenType.comma proc_arg []
    require TokenType.rrb
    require TokenType.colon
    type ← self.parse_type
    pure (Stmt.proc_def name type args)

  -- `[: type]` of a symbol definition
  unfoldable pub symbol_type : M (Option TypeNode)
  symbol_type = do
    typed ← accept TokenType.colon
    if typed then (do t ← self.parse_type; pure (some t)) else pure none

  -- parser_t::parse_stmt_symbol_def
  unfoldable pub parse_stmt_symbol_def : M Stmt
  parse_stmt_symbol_def = do
    is_var ← check_token TokenType.var false false
    is_val ← check_token TokenType.val false false
    if is_var || is_val then pure tt else return_null
    next_token
    name ← require_id
    next_token
    type ← symbol_type
    require TokenType.assign
    value ← self.parse_expr
    pure (Stmt.symbol_def name type value is_var)

-- The members of an enum so far, and the value of the next one.
abbrev pub EnumState : Type 0
EnumState = List (Bytes × ℤ) × ℤ

module _ ⦃src : TokenSource⦄ ⦃conv : Conversions⦄ (self : Callees) where
  -- `[= int]`: the value of a member, which is `index` without it
  unfoldable pub enum_value : ℤ → M ℤ
  enum_value index = do
    assigns ← accept TokenType.assign
    if assigns then (do v ← parse_literal_int; pure (to_i32 v)) else pure index

  -- A round of the loop of `parse_stmt_enum_def`.
  unfoldable pub enum_member : EnumState → M EnumState
  enum_member (members, index) = do
    name ← require_id
    if has_key name members then (do error_token_unexpected; return_null) else pure tt
    next_token
    value ← enum_value index
    pure (insert name value members, next_i32 value)

  -- parser_t::parse_stmt_enum_def
  unfoldable pub parse_stmt_enum_def : M Stmt
  parse_stmt_enum_def = do
    require TokenType.enum
    name ← require_id
    next_token
    require TokenType.lcb
    e ← separated self.rounds TokenType.rcb TokenType.comma enum_member ([], pos 0)
    require TokenType.rcb
    pure (Stmt.enum_def name e.0)
