-- ===== src/Llvm/Laws.antt =====
-- What the documentation of LLVM says of the values that its calls make, as far as src/omis/llvm/llvm.cxx
-- relies on it.
use Prim.Native.Nat.{◌^◌, bit_xor}
use eokas_lang.Prelude.{ℕ, ◌<◌, ◌≡◌, ◌≢◌, Bool, true, false, Bytes, Run, ok}
use eokas_lang.Omis.Bridge.{Handle}
use eokas_lang.Llvm.Api.{Constant, Ty, Opcode, Predicate, Instruction, Llvm}
use eokas_lang.Llvm.Types.{is_floating_point_ty}

-- The opcodes for integers, and the ones for floating-point numbers.
abbrev pub is_f_op : Opcode → Bool
is_f_op Opcode.f_add = true
is_f_op Opcode.f_sub = true
is_f_op Opcode.f_mul = true
is_f_op Opcode.f_div = true
is_f_op Opcode.f_rem = true
is_f_op _ = false

abbrev pub is_f_cmp : Predicate → Bool
is_f_cmp Predicate.fcmp_oeq = true
is_f_cmp Predicate.fcmp_one = true
is_f_cmp Predicate.fcmp_ole = true
is_f_cmp Predicate.fcmp_oge = true
is_f_cmp Predicate.fcmp_olt = true
is_f_cmp Predicate.fcmp_ogt = true
is_f_cmp _ = false

-- A value of the type can be held in memory.
abbrev pub is_held : Ty → Bool
is_held Ty.void = false
is_held (Ty.function ret params varg) = false
is_held _ = true

-- `Live v s`: the value `v` has been made.
module _ (L : Llvm) (Live : Handle → L.State → Type 0) where
  -- The call gives a live value of type `t`, which is no function, and leaves the values before it as they were.
  pub data Gives (t : Ty) (s : L.State) : Run (Handle × L.State) → Type 0 where
    gives :
        {h : Handle} {u : L.State}
        → Live h u
        → L.get_type h u ≡ t
        → L.is_function h u ≡ false
        → ((v : Handle)
            → Live v s
            → Live v u
              × ((L.get_type v u ≡ L.get_type v s) × (L.is_function v u ≡ L.is_function v s)))
        → Gives t s (ok (h, u))

pub record IsLawful (L : Llvm) : Type 1 where
  pub Live : Handle → L.State → Type 0
  pub live-ne_zero : (v : Handle) (s : L.State) → Live v s → v ≢ 0
  pub type_handle-ne_zero : (t : Ty) → L.type_handle t ≢ 0
  pub create_function-ne_zero :
      (t : Ty) (name : Bytes) (m : Handle) (s : L.State) → (L.create_function t name m s).0 ≢ 0
  -- The constants.
  pub constant_integer :
      (bits val : ℕ) (s : L.State)
      → Gives L Live
          (Ty.integer bits)
          s
          (L.constant (Constant.integer_value (Ty.integer bits) bits val) s)
  pub constant_double :
      (val : ℕ) (s : L.State) → Gives L Live Ty.double s (L.constant (Constant.double_value val) s)
  -- A load of a value that memory can hold.
  pub load :
      (v : Handle) (t : Ty) (s : L.State)
      → Live v s
      → L.get_type v s ≡ Ty.pointer t
      → is_held t ≡ true
      → Gives L Live t s (L.build (Instruction.load v) s)
  -- A binary operator on two operands of one type, which fits it.
  pub binary_integer :
      (op : Opcode) (a b : Handle) (n : ℕ) (s : L.State)
      → is_f_op op ≡ false
      → Live a s
      → Live b s
      → L.get_type a s ≡ Ty.integer n
      → L.get_type b s ≡ Ty.integer n
      → Gives L Live (Ty.integer n) s (L.build (Instruction.binary op a b) s)
  pub binary_floating :
      (op : Opcode) (a b : Handle) (t : Ty) (s : L.State)
      → is_f_op op ≡ true
      → is_floating_point_ty t ≡ true
      → Live a s
      → Live b s
      → L.get_type a s ≡ t
      → L.get_type b s ≡ t
      → Gives L Live t s (L.build (Instruction.binary op a b) s)
  -- A comparison of two operands of one type, which fits it.
  pub cmp_integer :
      (p : Predicate) (a b : Handle) (n : ℕ) (s : L.State)
      → is_f_cmp p ≡ false
      → Live a s
      → Live b s
      → L.get_type a s ≡ Ty.integer n
      → L.get_type b s ≡ Ty.integer n
      → Gives L Live (Ty.integer 1) s (L.build (Instruction.cmp p a b) s)
  pub cmp_floating :
      (p : Predicate) (a b : Handle) (t : Ty) (s : L.State)
      → is_f_cmp p ≡ true
      → is_floating_point_ty t ≡ true
      → Live a s
      → Live b s
      → L.get_type a s ≡ t
      → L.get_type b s ≡ t
      → Gives L Live (Ty.integer 1) s (L.build (Instruction.cmp p a b) s)
  -- The conversions of an integer and of a pointer.
  pub si_to_fp :
      (a : Handle) (n : ℕ) (t : Ty) (s : L.State)
      → is_floating_point_ty t ≡ true
      → Live a s
      → L.get_type a s ≡ Ty.integer n
      → Gives L Live t s (L.build (Instruction.si_to_fp a t) s)
  pub ptr_to_int :
      (a : Handle) (t : Ty) (n : ℕ) (s : L.State)
      → Live a s
      → L.get_type a s ≡ Ty.pointer t
      → Gives L Live (Ty.integer n) s (L.build (Instruction.ptr_to_int a (Ty.integer n)) s)

-- `Computes v s x`: the value `v` is the integer `x` where the code runs.
module _ (L : Llvm) (Computes : Handle → L.State → ℕ → Type 0) where
  -- The call gives a value of `bits` bits that is `x`, and leaves the values before it as they were.
  pub data Computed (bits x : ℕ) (s : L.State) : Run (Handle × L.State) → Type 0 where
    computed :
        {h : Handle} {u : L.State}
        → Computes h u x
        → L.get_type h u ≡ Ty.integer bits
        → ((v : Handle) (y : ℕ)
            → Computes v s y
            → Computes v u y × (L.get_type v u ≡ L.get_type v s))
        → Computed bits x s (ok (h, u))

-- Of the language reference of LLVM: what an integer constant and `xor` compute.
pub record IsComputing (L : Llvm) : Type 1 where
  pub Computes : Handle → L.State → ℕ → Type 0
  pub computes-ne_zero : (v : Handle) (s : L.State) (x : ℕ) → Computes v s x → v ≢ 0
  pub constant :
      (bits val : ℕ) (s : L.State)
      → val < 2 ^ bits
      → Computed L Computes bits val s
          (L.constant (Constant.integer_value (Ty.integer bits) bits val) s)
  pub xor :
      (a b : Handle) (bits x y : ℕ) (s : L.State)
      → L.get_type a s ≡ Ty.integer bits
      → L.get_type b s ≡ Ty.integer bits
      → Computes a s x
      → Computes b s y
      → Computed L Computes bits (bit_xor x y) s (L.build (Instruction.binary Opcode.xor a b) s)
