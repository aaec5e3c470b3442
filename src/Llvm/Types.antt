-- ===== src/Llvm/Types.antt =====
-- src/omis/llvm/llvm.cxx: the types of LLVM, the tests on them and their names.
use eokas_lang.Prelude.{
  ℕ, zero, suc, ◌+◌, Bool, true, false, ◌==◌, List, [], ◌∷◌, ◌++◌, Bytes, codes, fault,
  out_of_range, if◌then◌else◌,
}
use eokas_lang.Omis.Bridge.{Handle, Op, BasicType}
use eokas_lang.Llvm.Api.{Ty, Tys, no_tys, ty_cons, Llvm}
use eokas_lang.Llvm.Monad.{◌>>=◌, pure, miscast, type_of}

-- isIntegerTy, isIntegerTy(bits), isFloatTy, isDoubleTy, isFloatingPointTy, isPointerTy, isFunctionTy,
-- isArrayTy and isStructTy of llvm::Type
abbrev pub is_integer_ty : Ty → Bool
is_integer_ty (Ty.integer bits) = true
is_integer_ty _ = false

abbrev pub is_integer_ty_of : ℕ → Ty → Bool
is_integer_ty_of n (Ty.integer bits) = bits == n
is_integer_ty_of n _ = false

abbrev pub is_floating_point_ty : Ty → Bool
is_floating_point_ty Ty.float = true
is_floating_point_ty Ty.double = true
is_floating_point_ty Ty.other_floating = true
is_floating_point_ty _ = false

abbrev pub is_pointer_ty : Ty → Bool
is_pointer_ty (Ty.pointer t) = true
is_pointer_ty _ = false

abbrev pub is_function_ty : Ty → Bool
is_function_ty (Ty.function ret params varg) = true
is_function_ty _ = false

abbrev pub is_array_ty : Ty → Bool
is_array_ty (Ty.array t n) = true
is_array_ty _ = false

abbrev pub is_struct_ty : Ty → Bool
is_struct_ty (Ty.struct name) = true
is_struct_ty _ = false

abbrev pub count_tys : Tys → ℕ
count_tys no_tys = 0
count_tys (ty_cons t ts) = suc (count_tys ts)

-- The types that the constructor of llvm_bridge_t keeps, by the methods that return them. The one of type_bool
-- is asked for again.
abbrev pub basic_ty : BasicType → Ty
basic_ty BasicType.void = Ty.void
basic_ty BasicType.i8 = Ty.integer 8
basic_ty BasicType.i16 = Ty.integer 16
basic_ty BasicType.i32 = Ty.integer 32
basic_ty BasicType.i64 = Ty.integer 64
basic_ty BasicType.f32 = Ty.float
basic_ty BasicType.f64 = Ty.double
basic_ty BasicType.bool = Ty.integer 1
basic_ty BasicType.bytes = Ty.pointer (Ty.integer 8)

-- The integers with a name.
abbrev integer_name : ℕ → Bytes
integer_name bits =
    if bits == 1
    then codes "bool"
    else if bits == 8
    then codes "i8"
    else if bits == 16
    then codes "i16"
    else if bits == 32
    then codes "i32"
    else if bits == 64
    then codes "i64"
    else codes "Unknown"

-- llvm_bridge_t::get_type_name, and its loop over the arguments from `i` on
unfoldable mutual
  pub ty_name : Ty → Bytes
  ty_name Ty.void = codes "void"
  ty_name (Ty.integer bits) = integer_name bits
  ty_name Ty.float = codes "f32"
  ty_name Ty.double = codes "f64"
  ty_name Ty.other_floating = codes "Unknown"
  ty_name (Ty.pointer element) = codes "Pointer<" ++ ty_name element ++ codes ">"
  ty_name (Ty.array element n) = codes "Array<" ++ ty_name element ++ codes ">"
  ty_name (Ty.function ret params varg) =
      codes "func(" ++ arg_names 0 (count_tys params) params ++ codes ") : " ++ ty_name ret
  ty_name (Ty.struct name) = name
  ty_name Ty.other = codes "Unknown"

  pub arg_names : ℕ → ℕ → Tys → Bytes
  arg_names i count no_tys = []
  arg_names i count (ty_cons arg rest) =
      ty_name arg ++ (if i + 1 == count then codes ", " else []) ++ arg_names (i + 1) count rest

module _ (L : Llvm) where
  abbrev args_type : List Handle → Tys
  args_type [] = no_tys
  args_type (arg ∷ rest) = ty_cons (L.type_at arg) (args_type rest)

  -- llvm_bridge_t::type_pointer
  unfoldable pub type_pointer : Handle → Op L.State Handle
  type_pointer type = do ty ← type_of L type; pure (L.type_handle (Ty.pointer ty))

  -- llvm_bridge_t::type_func
  unfoldable pub type_func : Handle → List Handle → Bool → Op L.State Handle
  type_func ret args varg = pure (L.type_handle (Ty.function (L.type_at ret) (args_type args) varg))

  -- llvm_bridge_t::is_type_func, is_type_array, is_type_struct
  unfoldable pub is_type : (Ty → Bool) → Handle → Op L.State Bool
  is_type test type = do ty ← type_of L type; pure (test ty)

  unfoldable pub get_type_name : Handle → Op L.State Bytes
  unfolding ty_name
  get_type_name type = do ty ← type_of L type; pure (ty_name ty)

  -- llvm_bridge_t::can_losslessly_cast
  unfoldable pub can_losslessly_cast : Handle → Handle → Op L.State Bool
  can_losslessly_cast a b = do
    ty ← type_of L a
    pure (L.can_losslessly_bit_cast_to ty (L.type_at b))

  -- The cast to llvm::FunctionType of a type or of what it points to, and what is read of it.
  abbrev func_type : {A : Type 0} → (Ty → Tys → Op L.State A) → Ty → Op L.State A
  func_type f (Ty.pointer (Ty.function ret params varg)) = f ret params
  func_type f (Ty.function ret params varg) = f ret params
  func_type f _ = miscast

  abbrev param_type : ℕ → Tys → Op L.State Handle
  param_type i no_tys s = fault out_of_range
  param_type zero (ty_cons t ts) s = pure (L.type_handle t) s
  param_type (suc i) (ty_cons t ts) s = param_type i ts s

  -- llvm_bridge_t::get_func_ret_type
  unfoldable pub get_func_ret_type : Handle → Op L.State Handle
  get_func_ret_type type = do
    ty ← type_of L type
    func_type (λ ret params. pure (L.type_handle ret)) ty

  -- llvm_bridge_t::get_func_arg_count
  unfoldable pub get_func_arg_count : Handle → Op L.State ℕ
  get_func_arg_count type = do
    ty ← type_of L type
    func_type (λ ret params. pure (count_tys params)) ty

  -- llvm_bridge_t::get_func_arg_type
  unfoldable pub get_func_arg_type : Handle → ℕ → Op L.State Handle
  get_func_arg_type type index = do
    ty ← type_of L type
    func_type (λ ret params. param_type index params) ty
