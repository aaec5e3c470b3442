-- ===== src/Llvm/Values.antt =====
-- src/omis/llvm/llvm.cxx: constants, functions, blocks, and the instructions that take their operands as they
-- are.
use Prim.Native.Nat.{◌%◌, ◌^◌}
use eokas_lang.Prelude.{
  ℕ, suc, Bool, Option, none, some, List, [], ◌∷◌, ◌==◌, Bytes, fault, no_return, if◌then◌else◌,
}
use eokas_lang.Omis.Bridge.{Handle, Op}
use eokas_lang.Llvm.Api.{Ty, Constant, Instruction, Llvm}
use eokas_lang.Llvm.Monad.{◌>>=◌, ◌>>◌, pure, gets, calls, does, runs, deref, type_of, value_type}

-- The digits of `llvm::APInt(bits, val)`, for at most 64 bits.
abbrev pub ap_int : ℕ → ℕ → ℕ
ap_int bits val = val % 2 ^ bits

abbrev pub count_incomings : List (Handle × Handle) → ℕ
count_incomings [] = 0
count_incomings (i ∷ rest) = suc (count_incomings rest)

module _ (L : Llvm) where
  -- llvm_bridge_t::make_module, drop_module
  unfoldable pub make_module : Bytes → Op L.State Handle
  make_module name = calls (L.new_module name)

  unfoldable pub drop_module : Handle → Op L.State (Unit {0})
  drop_module m = if m == 0 then pure tt else does (L.delete_module m)

  -- llvm_bridge_t::get_type_size
  unfoldable pub get_type_size : Handle → Op L.State Handle
  get_type_size type = L.constant (Constant.size_of (L.type_at type))

  -- llvm_bridge_t::get_default_value, by the type
  abbrev default_constant : Ty → Constant
  default_constant (Ty.integer bits) = Constant.integer_value (Ty.integer bits) bits (ap_int bits 0)
  default_constant Ty.float = Constant.single_value 0
  default_constant Ty.double = Constant.single_value 0
  default_constant Ty.other_floating = Constant.single_value 0
  default_constant _ = Constant.pointer_null (Ty.pointer Ty.void)

  unfoldable pub get_default_value : Handle → Op L.State Handle
  get_default_value type = do ty ← type_of L type; L.constant (default_constant ty)

  -- llvm_bridge_t::value_integer
  unfoldable pub value_integer : ℕ → ℕ → Op L.State Handle
  value_integer val bits =
      let type = if bits == 32 then Ty.integer 32 else Ty.integer 64 in
      L.constant (Constant.integer_value type bits (ap_int bits val))

  -- llvm_bridge_t::value_float, value_bool
  unfoldable pub value_float : ℕ → Op L.State Handle
  value_float val = L.constant (Constant.double_value val)

  unfoldable pub value_bool : Bool → Op L.State Handle
  value_bool val =
      L.constant (Constant.integer_value (Ty.integer 1) 1 (ap_int 1 (if val then 1 else 0)))

  -- llvm_bridge_t::value_func: `setAttributes` and `setCallingConv` are methods of the new function.
  unfoldable pub value_func : Handle → Bytes → Handle → Op L.State Handle
  value_func m name type = do
    func ← calls (L.create_function (L.type_at type) name m)
    deref func
    pure func

  -- llvm_bridge_t::get_func_arg_value
  unfoldable pub get_func_arg_value : Handle → ℕ → Op L.State Handle
  get_func_arg_value func index = do deref func; gets (L.get_arg func index)

  -- llvm_bridge_t::get_value_type
  unfoldable pub get_value_type : Handle → Op L.State Handle
  get_value_type v = do ty ← value_type L v; pure (L.type_handle ty)

  -- llvm_bridge_t::set_value_name
  unfoldable pub set_value_name : Handle → Bytes → Op L.State (Unit {0})
  set_value_name v name = do deref v; does (L.set_name v name)

  -- llvm_bridge_t::create_block, get_active_block, set_active_block
  unfoldable pub create_block : Handle → Bytes → Op L.State Handle
  create_block func name = calls (L.create_basic_block name func)

  unfoldable pub get_active_block : Op L.State Handle
  get_active_block = gets L.get_insert_block

  unfoldable pub set_active_block : Handle → Op L.State (Unit {0})
  set_active_block block = does (L.set_insert_point block)

  -- llvm_bridge_t::get_block_tail
  unfoldable pub get_block_tail : Handle → Op L.State Handle
  get_block_tail block = do
    deref block
    empty ← gets (L.block_is_empty block)
    if empty then pure 0 else gets (L.block_back block)

  -- llvm_bridge_t::is_terminator_ins
  unfoldable pub is_terminator_ins : Handle → Op L.State Bool
  is_terminator_ins ins = do deref ins; gets (L.is_terminator ins)

  -- llvm_bridge_t::alloc, load, store
  unfoldable pub alloc : Handle → Bytes → Op L.State Handle
  alloc type name = L.build (Instruction.alloca (L.type_at type) name)

  unfoldable pub load : Handle → Op L.State Handle
  load ptr = L.build (Instruction.load ptr)

  unfoldable pub store : Handle → Handle → Op L.State Handle
  store ptr val = L.build (Instruction.store val ptr)

  -- llvm_bridge_t::jump, jump_cond
  unfoldable pub jump : Handle → Op L.State Handle
  jump block = L.build (Instruction.br block)

  unfoldable pub jump_cond : Handle → Handle → Handle → Op L.State Handle
  jump_cond cond branch_true branch_false =
      L.build (Instruction.cond_br cond branch_true branch_false)

  abbrev pub add_incomings : Handle → List (Handle × Handle) → Op L.State (Unit {0})
  add_incomings p [] = pure tt
  add_incomings p ((value, block) ∷ rest) = do
    runs (L.add_incoming p value block)
    add_incomings p rest

  -- llvm_bridge_t::phi, which has no return statement
  unfoldable pub phi : Handle → List (Handle × Handle) → Op L.State Handle
  phi type incomings = do
    p ← L.build (Instruction.phi (L.type_at type) (count_incomings incomings))
    add_incomings p incomings
    λ s. fault no_return

  -- llvm_bridge_t::call, ret, bitcast
  unfoldable pub call : Handle → List Handle → Op L.State Handle
  call func args = L.build (Instruction.call func args)

  unfoldable pub ret : Option Handle → Op L.State Handle
  ret none = L.build Instruction.ret_void
  ret (some value) = L.build (Instruction.ret value)

  unfoldable pub bitcast : Handle → Handle → Op L.State Handle
  bitcast value type = L.build (Instruction.bit_cast value (L.type_at type))
