-- ===== src/Coder/Counter.antt =====
-- A backend for examples that counts the values it makes, and a module over it.
use eokas_lang.Prelude.{
  ℕ, zero, suc, ◌+◌, ◌*◌, ◌==◌, if◌then◌else◌, true, false, none, some, [], codes, ok,
}
use Prim.Native.Nat.{◌%◌}
use eokas_lang.Omis.Bridge.{Bridge, Handle, Op}
use eokas_lang.Omis.State.{OmisValue, OmisModule}
use eokas_lang.Omis.Objects.{basic_index}

-- A handle's remainder by 16 is its type: a basic one is one more than its index, and 10 is a function.
abbrev make_value : ℕ → Op ℕ Handle
make_value type n = ok (16 * n + type, n + 1)

abbrev same : {A : Type 0} → A → Op ℕ A
same a n = ok (a, n)

-- The type of a value of no type is `void`.
abbrev pub some_type : ℕ → ℕ
some_type zero = 1
some_type (suc t) = suc t

-- A backend of which every block ends in the terminator 31.
abbrev pub counter : Bridge
counter = record {
  State = ℕ;
  make_module = λ name. make_value 0;
  drop_module = λ h. same tt;
  type_basic = λ b. same (basic_index b + 1);
  type_pointer = λ h. same h;
  type_func = λ r args varg. same 10;
  is_type_func = λ h. same (h == 10);
  is_type_array = λ h. same false;
  is_type_struct = λ h. same false;
  get_type_name = λ h. same [];
  get_type_size = λ h. make_value 5;
  can_losslessly_cast = λ a b. same (a == b);
  get_func_ret_type = λ h. same 4;
  get_func_arg_count = λ h. same 0;
  get_func_arg_type = λ h i. same 4;
  get_func_arg_value = λ h i. make_value 4;
  get_default_value = λ h. make_value h;
  value_integer = λ val bits. make_value (if bits == 32 then 4 else 5);
  value_float = λ val. make_value 7;
  value_bool = λ val. make_value 8;
  value_func = λ m name type. make_value 10;
  get_value_type = λ h. same (some_type (h % 16));
  set_value_name = λ h name. same tt;
  create_block = λ f name. make_value 1;
  get_active_block = make_value 1;
  set_active_block = λ h. same tt;
  get_block_tail = λ h. same 31;
  is_terminator_ins = λ h. same (h == 31);
  alloc = λ type name. make_value type;
  load = λ h. same h;
  store = λ p v. make_value 1;
  unary = λ i a. make_value (a % 16);
  binary = λ i a b. make_value (a % 16);
  jump = λ b. make_value 1;
  jump_cond = λ c t f. make_value 1;
  phi = λ t l. make_value t;
  call = λ f args. make_value 4;
  ret = λ v. make_value 1;
  bitcast = λ v t. make_value t;
  get_ptr_val = λ h. same h;
  get_ptr_ref = λ h. same h;
  jit = λ h. same true;
  aot = λ h. same true;
}

abbrev main_value : OmisValue
main_value = record { id = 0; type = record { id = 0; handle = 10; name = [] }; handle = 26 }

-- A module inside its function, with nothing made yet.
abbrev pub start : OmisModule ⦃B = counter⦄
start = record {
  bridge = 2;
  name = codes "m";
  handle = 16;
  scope = record { func = some main_value; types = []; values = [] };
  parents = [];
  usings = [];
  types = [];
  values = [];
  break_point = none;
  continue_point = none;
  statics = λ b. none;
  next_id = 1;
}
