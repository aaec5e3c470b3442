-- ===== src/Llvm/Api.antt =====
-- The library LLVM, as src/omis/llvm/llvm.cxx calls it. Types are what the documentation of llvm::Type
-- tells apart, and a type has one address in a context. What LLVM does is the parameter `Llvm`.
use eokas_lang.Prelude.{ℕ, Bool, List, Bytes, Run}
use eokas_lang.Omis.Bridge.{Handle}

-- llvm::Type. A struct is known by its name, and `other` is any other type.
mutual
  pub data Ty : Type 0 where
    void : Ty
    integer : (bits : ℕ) → Ty
    float : Ty
    double : Ty
    other_floating : Ty
    pointer : (element : Ty) → Ty
    array : (element : Ty) (count : ℕ) → Ty
    function : (ret : Ty) (params : Tys) (varg : Bool) → Ty
    struct : (name : Bytes) → Ty
    other : Ty

  pub data Tys : Type 0 where
    no_tys : Tys
    ty_cons : Ty → Tys → Tys

-- llvm::Instruction::BinaryOps
pub data Opcode : Type 0 where
  add sub mul s_div s_rem : Opcode
  f_add f_sub f_mul f_div f_rem : Opcode
  and or xor shl l_shr : Opcode

-- llvm::CmpInst::Predicate
pub data Predicate : Type 0 where
  icmp_eq icmp_ne icmp_sle icmp_sge icmp_slt icmp_sgt : Predicate
  fcmp_oeq fcmp_one fcmp_ole fcmp_oge fcmp_olt fcmp_ogt : Predicate

-- What llvm::IRBuilder creates, by its arguments.
pub data Instruction : Type 0 where
  binary : Opcode → (lhs rhs : Handle) → Instruction
  cmp : Predicate → (lhs rhs : Handle) → Instruction
  neg : (rhs : Handle) → Instruction
  f_neg : (rhs : Handle) → Instruction
  not : (rhs : Handle) → Instruction
  si_to_fp : (value : Handle) → Ty → Instruction
  ptr_to_int : (value : Handle) → Ty → Instruction
  alloca : Ty → Bytes → Instruction
  load : (ptr : Handle) → Instruction
  store : (val ptr : Handle) → Instruction
  br : (block : Handle) → Instruction
  cond_br : (cond branch_true branch_false : Handle) → Instruction
  phi : Ty → (count : ℕ) → Instruction
  call : (func : Handle) → List Handle → Instruction
  ret_void : Instruction
  ret : (value : Handle) → Instruction
  bit_cast : (value : Handle) → Ty → Instruction

-- A constant: an integer by the digits of its llvm::APInt, a floating-point number by its bits.
pub data Constant : Type 0 where
  integer_value : Ty → (bits val : ℕ) → Constant
  single_value : ℕ → Constant
  double_value : ℕ → Constant
  pointer_null : Ty → Constant
  size_of : Ty → Constant

-- The steps of aot behind the target: each may fail.
pub record TargetMachine : Type 0 where
  pub target_found : Bool
  pub machine_made : Bool
  pub file_opened : Bool
  pub cannot_emit : Bool

pub record Llvm : Type 1 where
  pub State : Type 0
  -- the address of a type, and the type at an address
  pub type_handle : Ty → Handle
  pub type_at : Handle → Ty
  pub can_losslessly_bit_cast_to : Ty → Ty → Bool
  -- llvm::Module, llvm::Function, llvm::BasicBlock
  pub new_module : Bytes → State → Handle × State
  pub delete_module : Handle → State → State
  pub create_function : Ty → Bytes → Handle → State → Handle × State
  pub get_function : Handle → Bytes → State → Handle
  pub get_arg : Handle → ℕ → State → Handle
  pub create_basic_block : Bytes → Handle → State → Handle × State
  pub block_is_empty : Handle → State → Bool
  pub block_back : Handle → State → Handle
  -- llvm::Value
  pub get_type : Handle → State → Ty
  pub is_function : Handle → State → Bool
  pub is_terminator : Handle → State → Bool
  pub set_name : Handle → Bytes → State → State
  pub constant : Constant → State → Run (Handle × State)
  -- llvm::IRBuilder, and llvm::PHINode
  pub get_insert_block : State → Handle
  pub set_insert_point : Handle → State → State
  pub build : Instruction → State → Run (Handle × State)
  pub add_incoming : Handle → Handle → Handle → State → Run State
  -- llvm::ExecutionEngine: an engine that owns a module, or null
  pub create_engine : Handle → State → Handle × State
  pub finalize_object : Handle → State → State
  pub run_function : Handle → Handle → State → Run State
  -- The parts of writing an object file, and the write itself
  pub target_machine : State → TargetMachine
  pub set_target : Handle → State → State
  pub open_output : State → State
  pub run_passes : Handle → State → State
