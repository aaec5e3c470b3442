-- ===== src/Omis/Objects.antt =====
-- src/omis/model.cpp: the types and the values of a module. Each handle has one object, which is made
-- when it is first asked for.
use eokas_lang.Prelude.{
  ℕ, ◌+◌, Bool, Option, none, some, List, [], ◌∷◌, ◌==◌, ◌||◌, Bytes, if◌then◌else◌,
}
use eokas_lang.Omis.Bridge.{Bridge, Handle, BasicType}
use eokas_lang.Omis.State.{
  OmisType, OmisValue, OmisModule, M, ◌>>=◌, ◌>>◌, pure, get_state, modify, ask,
}

-- `types.find(handle)`, `values.find(handle)`
unfoldable pub find_handle : {A : Type 0} → Handle → List (Handle × A) → Option A
find_handle h [] = none
find_handle h ((k, a) ∷ rest) = if k == h then some a else find_handle h rest

abbrev pub basic_index : BasicType → ℕ
basic_index BasicType.void = 0
basic_index BasicType.i8 = 1
basic_index BasicType.i16 = 2
basic_index BasicType.i32 = 3
basic_index BasicType.i64 = 4
basic_index BasicType.f32 = 5
basic_index BasicType.f64 = 6
basic_index BasicType.bool = 7
basic_index BasicType.bytes = 8

abbrev pub handles : List OmisType → List Handle
handles [] = []
handles (t ∷ ts) = t.handle ∷ handles ts

module _ ⦃B : Bridge⦄ where
  abbrev new_type : Handle → Bytes → M OmisType
  new_type h name s =
      let t : OmisType = record { id = s.next_id; handle = h; name = name } in
      (do modify (λ r. record r { types = (h, t) ∷ r.types; next_id = r.next_id + 1 }); pure t) s

  -- omis_module_t::type, with the constructor of omis_type_t
  unfoldable pub type_at : Handle → M OmisType
  unfolding find_handle
  type_at h = do
    s ← get_state
    elim (find_handle h s.types) [
      | some t ↦ pure t
      | none ↦ do name ← ask (B.get_type_name h); new_type h name
    ]

  abbrev new_value : OmisType → Handle → M OmisValue
  new_value type h s =
      let v : OmisValue = record { id = s.next_id; type = type; handle = h } in
      (do modify (λ r. record r { values = (h, v) ∷ r.values; next_id = r.next_id + 1 }); pure v) s

  -- omis_module_t::value, with a type that only a new object is given
  unfoldable pub value_as : OmisType → Handle → M OmisValue
  unfolding find_handle
  value_as type h = do
    s ← get_state
    elim (find_handle h s.values) [ some v ↦ pure v | none ↦ new_value type h ]

  -- omis_module_t::value
  unfoldable pub value_at : Handle → M OmisValue
  value_at h = do th ← ask (B.get_value_type h); type ← type_at th; value_as type h

  abbrev pub set_static : BasicType → OmisType → OmisModule → OmisModule
  set_static b t s = record s {
    statics = λ c. if basic_index c == basic_index b then some t else s.statics c;
  }

  -- type_void, type_i8, type_i16, type_i32, type_i64, type_f32, type_f64, type_bool, type_bytes: the
  -- `static` variable is set by the first call.
  unfoldable pub basic : BasicType → M OmisType
  basic b = do
    s ← get_state
    elim (s.statics b) [
      | some t ↦ pure t
      | none ↦ do h ← ask (B.type_basic b); t ← type_at h; modify (set_static b t); pure t
    ]

  -- omis_module_t::type_pointer, omis_type_t::get_pointer_type
  unfoldable pub type_pointer : OmisType → M OmisType
  type_pointer type = do h ← ask (B.type_pointer type.handle); type_at h

  -- omis_type_t::is_type_func, is_type_array, is_type_struct
  abbrev pub is_type_func : OmisType → M Bool
  is_type_func type = ask (B.is_type_func type.handle)

  abbrev pub is_type_array : OmisType → M Bool
  is_type_array type = ask (B.is_type_array type.handle)

  abbrev pub is_type_struct : OmisType → M Bool
  is_type_struct type = ask (B.is_type_struct type.handle)

  -- omis_value_t::set_name
  abbrev pub set_name : OmisValue → Bytes → M (Unit {0})
  set_name v name = ask (B.set_value_name v.handle name)

  -- omis_module_t::type_func
  unfoldable pub type_func : OmisType → List OmisType → Bool → M OmisType
  type_func ret args varg = do h ← ask (B.type_func ret.handle (handles args) varg); type_at h

  -- omis_module_t::get_type_size
  unfoldable pub get_type_size : OmisType → M OmisValue
  get_type_size type = do h ← ask (B.get_type_size type.handle); value_at h

  -- omis_module_t::can_losslessly_bitcast
  unfoldable pub can_losslessly_bitcast : OmisType → OmisType → M Bool
  can_losslessly_bitcast a b = ask (B.can_losslessly_cast a.handle b.handle)

  -- omis_module_t::value_integer
  unfoldable pub value_integer : ℕ → ℕ → M OmisValue
  value_integer val bits = do
    wide ← basic BasicType.i64
    type ← (if bits == 32 then basic BasicType.i32 else pure wide)
    h ← ask (B.value_integer val bits)
    value_as type h

  -- omis_module_t::value_float
  unfoldable pub value_float : ℕ → M OmisValue
  value_float val = do type ← basic BasicType.f64; h ← ask (B.value_float val); value_as type h

  -- omis_module_t::value_bool
  unfoldable pub value_bool : Bool → M OmisValue
  value_bool val = do type ← basic BasicType.bool; h ← ask (B.value_bool val); value_as type h

  -- omis_module_t::value_func
  unfoldable pub value_func : Bytes → OmisType → List OmisType → Bool → M OmisValue
  value_func name ret args varg = do
    type ← type_func ret args varg
    s ← get_state
    h ← ask (B.value_func s.handle name type.handle)
    value_at h

  -- omis_module_t::get_func_ret_type
  unfoldable pub get_func_ret_type : OmisValue → M OmisType
  get_func_ret_type func = do h ← ask (B.get_func_ret_type func.type.handle); type_at h

  -- omis_module_t::get_func_arg_count
  unfoldable pub get_func_arg_count : OmisValue → M ℕ
  get_func_arg_count func = ask (B.get_func_arg_count func.type.handle)

  -- omis_module_t::get_func_arg_type
  unfoldable pub get_func_arg_type : OmisValue → ℕ → M OmisType
  get_func_arg_type func index = do h ← ask (B.get_func_arg_type func.type.handle index); type_at h

  -- omis_module_t::get_func_arg_value
  unfoldable pub get_func_arg_value : OmisValue → ℕ → M OmisValue
  get_func_arg_value func index = do h ← ask (B.get_func_arg_value func.handle index); value_at h

-- omis_module_t::equals_type, omis_module_t::equals_value
abbrev pub equals_type : OmisType → OmisType → Bool
equals_type a b = a.id == b.id || a.handle == b.handle

abbrev pub equals_value : OmisValue → OmisValue → Bool
equals_value a b = a.id == b.id || a.handle == b.handle
