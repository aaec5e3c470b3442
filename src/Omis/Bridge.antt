-- ===== src/Omis/Bridge.antt =====
-- src/omis/bridge.h: the backend that a module writes its code through. A handle is an opaque
-- pointer, and 0 is the null pointer. Each method may change the state of the backend, or fault. The methods
-- for the constant types, for unary and for binary instructions are one field each, over the list
-- of their names. Methods that nothing calls are left out.
use eokas_lang.Prelude.{ℕ, Bool, Option, List, Bytes, Run}

abbrev pub Handle : Type 0
Handle = ℕ

abbrev pub Op : Type 0 → Type 0 → Type 0
Op S A = S → Run (A × S)

-- type_void, type_i8, ...
pub data BasicType : Type 0 where
  void i8 i16 i32 i64 f32 f64 bool bytes : BasicType

-- neg, l_not, b_flip
pub data UnaryIns : Type 0 where
  neg l_not b_flip : UnaryIns

-- add, sub, ...
pub data BinaryIns : Type 0 where
  add sub mul div mod_ins : BinaryIns
  eq ne gt ge lt le : BinaryIns
  l_and l_or : BinaryIns
  b_and b_or b_xor b_shl b_shr : BinaryIns

-- omis_bridge_t
pub record Bridge : Type 1 where
  pub State : Type 0
  pub make_module : Bytes → Op State Handle
  pub drop_module : Handle → Op State (Unit {0})
  pub type_basic : BasicType → Op State Handle
  pub type_pointer : Handle → Op State Handle
  pub type_func : Handle → List Handle → Bool → Op State Handle
  pub is_type_func : Handle → Op State Bool
  pub is_type_array : Handle → Op State Bool
  pub is_type_struct : Handle → Op State Bool
  pub get_type_name : Handle → Op State Bytes
  pub get_type_size : Handle → Op State Handle
  pub can_losslessly_cast : Handle → Handle → Op State Bool
  pub get_func_ret_type : Handle → Op State Handle
  pub get_func_arg_count : Handle → Op State ℕ
  pub get_func_arg_type : Handle → ℕ → Op State Handle
  pub get_func_arg_value : Handle → ℕ → Op State Handle
  pub get_default_value : Handle → Op State Handle
  pub value_integer : ℕ → ℕ → Op State Handle
  pub value_float : ℕ → Op State Handle
  pub value_bool : Bool → Op State Handle
  pub value_func : Handle → Bytes → Handle → Op State Handle
  pub get_value_type : Handle → Op State Handle
  pub set_value_name : Handle → Bytes → Op State (Unit {0})
  pub create_block : Handle → Bytes → Op State Handle
  pub get_active_block : Op State Handle
  pub set_active_block : Handle → Op State (Unit {0})
  pub get_block_tail : Handle → Op State Handle
  pub is_terminator_ins : Handle → Op State Bool
  pub alloc : Handle → Bytes → Op State Handle
  pub load : Handle → Op State Handle
  pub store : Handle → Handle → Op State Handle
  pub unary : UnaryIns → Handle → Op State Handle
  pub binary : BinaryIns → Handle → Handle → Op State Handle
  pub jump : Handle → Op State Handle
  pub jump_cond : Handle → Handle → Handle → Op State Handle
  pub phi : Handle → List (Handle × Handle) → Op State Handle
  pub call : Handle → List Handle → Op State Handle
  pub ret : Option Handle → Op State Handle
  pub bitcast : Handle → Handle → Op State Handle
  pub get_ptr_val : Handle → Op State Handle
  pub get_ptr_ref : Handle → Op State Handle
  pub jit : Handle → Op State Bool
  pub aot : Handle → Op State Bool
