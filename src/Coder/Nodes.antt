-- ===== src/Coder/Nodes.antt =====
-- src/omis/x-module-coder.cpp: the code of one node, from that of its parts. A part is an action, as
-- it is a lambda in the source.
use Prim.Native.Nat.{◌^◌}
use eokas_lang.Prelude.{
  ℕ, ◌+◌, ◌-◌, leb, ◌==◌, Bool, true, false, Option, none, some, List, [], ◌∷◌, Bytes, codes,
  if◌then◌else◌, no_return,
}
use eokas_lang.Ast.{TypeNode, type_node, FuncArg}
use eokas_lang.Ast.Oper.{BinaryOper, UnaryOper}
use eokas_lang.Ast.Int.{ℤ, pos, negsuc}
use eokas_lang.Parser.Monad.{failed}
use eokas_lang.Omis.Bridge.{Bridge, UnaryIns, BinaryIns}
use eokas_lang.Omis.State.{OmisType, OmisValue, M, ◌>>=◌, ◌>>◌, pure, return_null, nullable, ask}
use eokas_lang.Omis.Scopes.{
  get_type_symbol, get_value_symbol, add_value_symbol, push_scope, pop_scope,
}
use eokas_lang.Omis.Objects.{
  value_integer, value_func, type_pointer, is_type_func, is_type_array, is_type_struct,
  get_func_arg_type, get_func_arg_value,
}
use eokas_lang.Omis.Instructions.{
  create_block, set_active_block, unary_same, unary_bool, arithmetic, comparison, bitwise, call,
  get_ptr_val,
}
use eokas_lang.Omis.Control.{both, stmt_ensure_tail_ret}

-- `*((u64_t*) &(node->value))`
abbrev pub to_u64 : ℤ → ℕ
to_u64 (pos n) = n
to_u64 (negsuc n) = 2 ^ 64 - 1 - n

module _ ⦃B : Bridge⦄ where
  -- encode_type_ref
  unfoldable pub encode_type_ref : TypeNode → M OmisType
  encode_type_ref (type_node name args) = do
    symbol ← get_type_symbol name true
    elim symbol [ some type ↦ pure type | none ↦ return_null ]

  -- The switch of encode_expr_binary, which has every operator.
  unfoldable pub binary_code : BinaryOper → OmisValue → OmisValue → M OmisValue
  binary_code BinaryOper.or = comparison BinaryIns.l_or
  binary_code BinaryOper.and = comparison BinaryIns.l_and
  binary_code BinaryOper.eq = comparison BinaryIns.eq
  binary_code BinaryOper.ne = comparison BinaryIns.ne
  binary_code BinaryOper.le = comparison BinaryIns.le
  binary_code BinaryOper.ge = comparison BinaryIns.ge
  binary_code BinaryOper.lt = comparison BinaryIns.lt
  binary_code BinaryOper.gt = comparison BinaryIns.gt
  binary_code BinaryOper.add = arithmetic BinaryIns.add
  binary_code BinaryOper.sub = arithmetic BinaryIns.sub
  binary_code BinaryOper.mul = arithmetic BinaryIns.mul
  binary_code BinaryOper.div = arithmetic BinaryIns.div
  binary_code BinaryOper.mod_op = arithmetic BinaryIns.mod_ins
  binary_code BinaryOper.bit_and = bitwise BinaryIns.b_and
  binary_code BinaryOper.bit_or = bitwise BinaryIns.b_or
  binary_code BinaryOper.bit_xor = bitwise BinaryIns.b_xor
  binary_code BinaryOper.shift_l = bitwise BinaryIns.b_shl
  binary_code BinaryOper.shift_r = bitwise BinaryIns.b_shr
  binary_code BinaryOper.unknown = λ lhs rhs. return_null

  -- encode_expr_binary
  unfoldable pub encode_expr_binary : BinaryOper → M OmisValue → M OmisValue → M OmisValue
  encode_expr_binary op left right = do
    (l, r) ← both left right
    lhs ← get_ptr_val l
    rhs ← get_ptr_val r
    binary_code op lhs rhs

  -- The switch of encode_expr_unary.
  unfoldable pub unary_code : UnaryOper → OmisValue → M OmisValue
  unary_code UnaryOper.pos = pure
  unary_code UnaryOper.neg = unary_same UnaryIns.neg
  unary_code UnaryOper.not = unary_bool UnaryIns.l_not
  unary_code UnaryOper.flip = unary_same UnaryIns.b_flip
  unary_code _ = λ rhs. return_null

  -- encode_expr_unary
  unfoldable pub encode_expr_unary : UnaryOper → M OmisValue → M OmisValue
  encode_expr_unary op right = do r ← right; rhs ← get_ptr_val r; unary_code op rhs

  -- encode_expr_int
  unfoldable pub encode_expr_int : ℤ → M OmisValue
  encode_expr_int value =
      let vals = to_u64 value in value_integer vals (if leb vals 0xFFFFFFFF then 32 else 64)

  -- encode_expr_symbol_ref: both returns give the value
  unfoldable pub encode_expr_symbol_ref : Bytes → M OmisValue
  encode_expr_symbol_ref name = do
    symbol ← get_value_symbol name true
    elim symbol [ some v ↦ pure v.value | none ↦ return_null ]

  -- `a() || b()`
  abbrev or_else : M Bool → M Bool → M Bool
  or_else m n = do b ← m; if b then pure true else n

  -- The type that an argument is passed with.
  unfoldable pub pass_type : OmisType → M OmisType
  pass_type type = do
    by_pointer ← or_else (is_type_func type) (or_else (is_type_array type) (is_type_struct type))
    if by_pointer then type_pointer type else pure type

  unfoldable pub arg_types : List FuncArg → M (List OmisType)
  arg_types [] = pure []
  arg_types (arg ∷ args) = do
    type ← encode_type_ref arg.type
    passed ← pass_type type
    rest ← arg_types args
    pure (passed ∷ rest)

  -- The loop over the arguments, which gives them their names.
  unfoldable pub name_args : OmisValue → ℕ → List FuncArg → M (Unit {0})
  name_args func index [] = pure tt
  name_args func index (a ∷ args) = do
    arg ← get_func_arg_value func (index + 1)
    ask (B.set_value_name arg.handle a.name)
    add_value_symbol a.name arg
    name_args func (index + 1) args

  -- encode_expr_func_def
  unfoldable pub encode_expr_func_def : TypeNode → List FuncArg → M (Unit {0}) → M OmisValue
  encode_expr_func_def rtype args body = do
    ret_type ← encode_type_ref rtype
    args_types ← arg_types args
    new_func ← value_func (codes "") ret_type args_types false
    push_scope (some new_func)
    entry ← create_block (codes "entry")
    set_active_block entry
    self ← nullable (add_value_symbol (codes "self") new_func)
    name_args new_func 0 args
    body
    stmt_ensure_tail_ret new_func
    pop_scope
    pure new_func

  -- The first pass of the loop of encode_expr_func_ref, which returns. `arg` is the code of the first
  -- argument; without one the loop is skipped, and nothing is returned.
  unfoldable pub encode_expr_func_ref : M OmisValue → Option (M OmisValue) → M OmisValue
  encode_expr_func_ref callee none = do
    expr ← callee
    func ← get_ptr_val expr
    λ s. failed no_return
  encode_expr_func_ref callee (some arg) = do
    expr ← callee
    func ← get_ptr_val expr
    arg_type ← get_func_arg_type func 0
    a ← arg
    value ← get_ptr_val a
    call func (if arg_type.id == value.type.id then [] else value ∷ [])
