-- ===== src/Llvm/Operators.antt =====
-- src/omis/llvm/llvm.cxx: the unary and the binary operators, which look at the types of their operands.
use eokas_lang.Prelude.{ℕ, ◌&&◌, if◌then◌else◌}
use eokas_lang.Omis.Bridge.{Handle, Op}
use eokas_lang.Llvm.Api.{Ty, Opcode, Predicate, Instruction, Constant, Llvm}
use eokas_lang.Llvm.Monad.{◌>>=◌, pure, value_type}
use eokas_lang.Llvm.Types.{is_integer_ty, is_integer_ty_of, is_floating_point_ty, is_pointer_ty}
use eokas_lang.Llvm.Values.{ap_int}

-- llvm_bridge_t::ArithOp, CmpOp
pub data ArithOp : Type 0 where
  add sub mul div rem : ArithOp

pub data CmpOp : Type 0 where
  eq ne le ge lt gt : CmpOp

-- ins_i and ins_f of arith
abbrev pub ins_i : ArithOp → Opcode
ins_i ArithOp.add = Opcode.add
ins_i ArithOp.sub = Opcode.sub
ins_i ArithOp.mul = Opcode.mul
ins_i ArithOp.div = Opcode.s_div
ins_i ArithOp.rem = Opcode.s_rem

abbrev pub ins_f : ArithOp → Opcode
ins_f ArithOp.add = Opcode.f_add
ins_f ArithOp.sub = Opcode.f_sub
ins_f ArithOp.mul = Opcode.f_mul
ins_f ArithOp.div = Opcode.f_div
ins_f ArithOp.rem = Opcode.f_rem

-- op_i and op_f of cmp
abbrev pub op_i : CmpOp → Predicate
op_i CmpOp.eq = Predicate.icmp_eq
op_i CmpOp.ne = Predicate.icmp_ne
op_i CmpOp.le = Predicate.icmp_sle
op_i CmpOp.ge = Predicate.icmp_sge
op_i CmpOp.lt = Predicate.icmp_slt
op_i CmpOp.gt = Predicate.icmp_sgt

abbrev pub op_f : CmpOp → Predicate
op_f CmpOp.eq = Predicate.fcmp_oeq
op_f CmpOp.ne = Predicate.fcmp_one
op_f CmpOp.le = Predicate.fcmp_ole
op_f CmpOp.ge = Predicate.fcmp_oge
op_f CmpOp.lt = Predicate.fcmp_olt
op_f CmpOp.gt = Predicate.fcmp_ogt

-- The digits of the mask of b_flip.
abbrev pub flip_mask : ℕ → ℕ
flip_mask bits = ap_int bits 0xFFFFFFFF

module _ (L : Llvm) where
  -- A message is printed, and the result is null.
  abbrev pub invalid : Op L.State Handle
  invalid = pure 0

  abbrev pub cmp_with : Predicate → Handle → Handle → Op L.State Handle
  cmp_with p lhs rhs = L.build (Instruction.cmp p lhs rhs)

  abbrev pub binary_with : Opcode → Handle → Handle → Op L.State Handle
  binary_with op lhs rhs = L.build (Instruction.binary op lhs rhs)

  abbrev pub to_double : Handle → Op L.State Handle
  to_double v = L.build (Instruction.si_to_fp v Ty.double)

  -- llvm_bridge_t::neg
  unfoldable pub neg : Handle → Op L.State Handle
  neg a = do
    rtype ← value_type L a
    if is_integer_ty rtype
        then L.build (Instruction.neg a)
        else if is_floating_point_ty rtype
        then L.build (Instruction.f_neg a)
        else invalid

  -- llvm_bridge_t::arith, by the types of the operands
  unfoldable pub arith_on : ArithOp → Handle → Handle → Ty → Ty → Op L.State Handle
  arith_on op a b ltype rtype =
      if is_integer_ty ltype && is_integer_ty rtype
      then binary_with (ins_i op) a b
      else if is_floating_point_ty ltype && is_floating_point_ty rtype
      then binary_with (ins_f op) a b
      else if is_integer_ty ltype && is_floating_point_ty rtype
      then (do lhs ← to_double a; binary_with (ins_f op) lhs b)
      else if is_floating_point_ty ltype && is_integer_ty rtype
      then (do rhs ← to_double b; binary_with (ins_f op) a rhs)
      else invalid

  unfoldable pub arith : ArithOp → Handle → Handle → Op L.State Handle
  arith op a b = do ltype ← value_type L a; rtype ← value_type L b; arith_on op a b ltype rtype

  -- llvm_bridge_t::cmp, by the types of the operands
  unfoldable pub cmp_on : CmpOp → Handle → Handle → Ty → Ty → Op L.State Handle
  cmp_on op a b ltype rtype =
      if is_integer_ty ltype && is_integer_ty rtype
      then cmp_with (op_i op) a b
      else if is_pointer_ty ltype && is_pointer_ty rtype
      then (do
        lhs ← L.build (Instruction.ptr_to_int a (Ty.integer 64))
        rhs ← L.build (Instruction.ptr_to_int b (Ty.integer 64))
        cmp_with (op_i op) lhs rhs)
      else if is_floating_point_ty ltype && is_floating_point_ty rtype
      then cmp_with (op_f op) a b
      else if is_integer_ty ltype && is_floating_point_ty rtype
      then (do lhs ← to_double a; cmp_with (op_f op) lhs b)
      else if is_floating_point_ty ltype && is_integer_ty rtype
      then (do rhs ← to_double b; cmp_with (op_f op) a rhs)
      else invalid

  unfoldable pub cmp : CmpOp → Handle → Handle → Op L.State Handle
  cmp op a b = do ltype ← value_type L a; rtype ← value_type L b; cmp_on op a b ltype rtype

  -- llvm_bridge_t::l_not
  unfoldable pub l_not : Handle → Op L.State Handle
  l_not a = do
    rtype ← value_type L a
    if is_integer_ty_of 1 rtype then L.build (Instruction.not a) else invalid

  -- llvm_bridge_t::l_and, l_or
  unfoldable pub logical : Opcode → Handle → Handle → Op L.State Handle
  logical op a b = do
    ltype ← value_type L a
    rtype ← value_type L b
    if is_integer_ty_of 1 ltype && is_integer_ty_of 1 rtype then binary_with op a b else invalid

  -- llvm_bridge_t::b_flip, by the type of the operand
  unfoldable pub flip_on : Handle → Ty → Op L.State Handle
  flip_on a (Ty.integer bits) = do
    mask ← L.constant (Constant.integer_value (Ty.integer bits) bits (flip_mask bits))
    binary_with Opcode.xor a mask
  flip_on a _ = invalid

  unfoldable pub b_flip : Handle → Op L.State Handle
  b_flip a = do rtype ← value_type L a; flip_on a rtype

  -- llvm_bridge_t::b_and, b_or, b_xor, b_shl, b_shr
  unfoldable pub bitwise : Opcode → Handle → Handle → Op L.State Handle
  bitwise op a b = do
    ltype ← value_type L a
    rtype ← value_type L b
    if is_integer_ty ltype && is_integer_ty rtype then binary_with op a b else invalid
