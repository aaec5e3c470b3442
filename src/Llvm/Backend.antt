-- ===== src/Llvm/Backend.antt =====
-- src/omis/llvm/llvm.cxx: the runs of a module, and llvm_bridge_t as the backend of a module.
use mathlib.Core.Bool.{not}
use eokas_lang.Prelude.{Bool, true, false, ◌==◌, codes, if◌then◌else◌}
use eokas_lang.Omis.Bridge.{Bridge, Handle, Op, BasicType, UnaryIns, BinaryIns}
use eokas_lang.Llvm.Api.{Opcode, Llvm}
use eokas_lang.Llvm.Monad.{◌>>=◌, ◌>>◌, pure, crash, gets, calls, does, runs, deref}
use eokas_lang.Llvm.Types.{
  is_function_ty, is_array_ty, is_struct_ty, basic_ty, type_pointer, type_func, is_type,
  get_type_name, can_losslessly_cast, get_func_ret_type, get_func_arg_count, get_func_arg_type,
}
use eokas_lang.Llvm.Values.{
  make_module, drop_module, get_type_size, get_default_value, value_integer, value_float,
  value_bool, value_func, get_func_arg_value, get_value_type, set_value_name, create_block,
  get_active_block, set_active_block, get_block_tail, is_terminator_ins, alloc, load, store, jump,
  jump_cond, phi, call, ret, bitcast,
}
use eokas_lang.Llvm.Operators
use eokas_lang.Llvm.Operators.{ArithOp, CmpOp, neg, cmp, l_not, logical, b_flip, bitwise}
use eokas_lang.Llvm.Pointers.{get_ptr_val, get_ptr_ref}

module _ (L : Llvm) where
  -- llvm_bridge_t::type_void, type_i8, ...
  unfoldable pub type_basic : BasicType → Op L.State Handle
  type_basic b = pure (L.type_handle (basic_ty b))

  -- The methods by their instruction.
  unfoldable pub unary : UnaryIns → Handle → Op L.State Handle
  unary UnaryIns.neg a = neg L a
  unary UnaryIns.l_not a = l_not L a
  unary UnaryIns.b_flip a = b_flip L a

  -- add, sub, mul, div, mod; eq, ne, gt, ge, lt, le; l_and, l_or; b_and, b_or, b_xor, b_shl, b_shr
  unfoldable pub binary : BinaryIns → Handle → Handle → Op L.State Handle
  binary BinaryIns.add a b = Operators.arith L ArithOp.add a b
  binary BinaryIns.sub a b = Operators.arith L ArithOp.sub a b
  binary BinaryIns.mul a b = Operators.arith L ArithOp.mul a b
  binary BinaryIns.div a b = Operators.arith L ArithOp.div a b
  binary BinaryIns.mod_ins a b = Operators.arith L ArithOp.rem a b
  binary BinaryIns.eq a b = cmp L CmpOp.eq a b
  binary BinaryIns.ne a b = cmp L CmpOp.ne a b
  binary BinaryIns.gt a b = cmp L CmpOp.gt a b
  binary BinaryIns.ge a b = cmp L CmpOp.ge a b
  binary BinaryIns.lt a b = cmp L CmpOp.lt a b
  binary BinaryIns.le a b = cmp L CmpOp.le a b
  binary BinaryIns.l_and a b = logical L Opcode.and a b
  binary BinaryIns.l_or a b = logical L Opcode.or a b
  binary BinaryIns.b_and a b = bitwise L Opcode.and a b
  binary BinaryIns.b_or a b = bitwise L Opcode.or a b
  binary BinaryIns.b_xor a b = bitwise L Opcode.xor a b
  binary BinaryIns.b_shl a b = bitwise L Opcode.shl a b
  binary BinaryIns.b_shr a b = bitwise L Opcode.l_shr a b

  -- llvm_bridge_t::jit
  unfoldable pub jit : Handle → Op L.State Bool
  jit m = do
    ee ← calls (L.create_engine m)
    deref ee
    does (L.finalize_object ee)
    func ← gets (L.get_function m (codes "$main"))
    if func == 0 then pure false else (do runs (L.run_function ee func); pure true)

  -- llvm_bridge_t::aot
  unfoldable pub aot : Handle → Op L.State Bool
  aot m = do
    target ← gets L.target_machine
    if not target.target_found then crash else if not target.machine_made then crash else (do
      deref m
      does (L.set_target m)
      does L.open_output
      if not target.file_opened
          then pure false
          else if target.cannot_emit
          then pure false
          else (do does (L.run_passes m); pure true))

-- llvm_bridge_t
abbrev pub llvm_bridge : Llvm → Bridge
llvm_bridge L = record {
  State = L.State;
  make_module = make_module L;
  drop_module = drop_module L;
  type_basic = type_basic L;
  type_pointer = type_pointer L;
  type_func = type_func L;
  is_type_func = is_type L is_function_ty;
  is_type_array = is_type L is_array_ty;
  is_type_struct = is_type L is_struct_ty;
  get_type_name = get_type_name L;
  get_type_size = get_type_size L;
  can_losslessly_cast = can_losslessly_cast L;
  get_func_ret_type = get_func_ret_type L;
  get_func_arg_count = get_func_arg_count L;
  get_func_arg_type = get_func_arg_type L;
  get_func_arg_value = get_func_arg_value L;
  get_default_value = get_default_value L;
  value_integer = value_integer L;
  value_float = value_float L;
  value_bool = value_bool L;
  value_func = value_func L;
  get_value_type = get_value_type L;
  set_value_name = set_value_name L;
  create_block = create_block L;
  get_active_block = get_active_block L;
  set_active_block = set_active_block L;
  get_block_tail = get_block_tail L;
  is_terminator_ins = is_terminator_ins L;
  alloc = alloc L;
  load = load L;
  store = store L;
  unary = unary L;
  binary = binary L;
  jump = jump L;
  jump_cond = jump_cond L;
  phi = phi L;
  call = call L;
  ret = ret L;
  bitcast = bitcast L;
  get_ptr_val = get_ptr_val L;
  get_ptr_ref = get_ptr_ref L;
  jit = jit L;
  aot = aot L;
}
