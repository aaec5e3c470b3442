-- ===== src/Llvm/Sample.antt =====
-- An LLVM for examples, which only keeps the types of its values and what integers they are.
use eokas_lang.Prelude.{
  ℕ, suc, ◌+◌, ◌≤◌, ◌<◌, ◌≡◌, ◌≢◌, refl, true, false, ◌==◌, ok, if◌then◌else◌, arith,
}
use Prim.Native.Nat.{bit_xor}
use eokas_lang.Omis.Bridge.{Handle}
use eokas_lang.Llvm.Api.{Ty, Tys, Opcode, Instruction, Constant, Llvm}
use eokas_lang.Llvm.Laws.{Gives, gives, IsLawful, Computed, computed, IsComputing}

-- The types of the values 1 to `count`, and the integers that they are.
pub record Typed : Type 0 where
  pub count : ℕ
  pub types : ℕ → Ty
  pub digits : ℕ → ℕ

abbrev make_digits : Ty → ℕ → Typed → Handle × Typed
make_digits t d s = (
  suc s.count,
  record {
    count = suc s.count;
    types = λ h. if h == suc s.count then t else s.types h;
    digits = λ h. if h == suc s.count then d else s.digits h;
  },
)

abbrev make : Ty → Typed → Handle × Typed
make t s = make_digits t 0 s

abbrev element : Ty → Ty
element (Ty.pointer t) = t
element _ = Ty.other

abbrev type_of_instruction : Instruction → Typed → Ty
type_of_instruction (Instruction.binary op a b) s = s.types a
type_of_instruction (Instruction.cmp p a b) s = Ty.integer 1
type_of_instruction (Instruction.neg a) s = s.types a
type_of_instruction (Instruction.f_neg a) s = s.types a
type_of_instruction (Instruction.not a) s = s.types a
type_of_instruction (Instruction.si_to_fp a t) s = t
type_of_instruction (Instruction.ptr_to_int a t) s = t
type_of_instruction (Instruction.alloca t name) s = Ty.pointer t
type_of_instruction (Instruction.load p) s = element (s.types p)
type_of_instruction (Instruction.phi t n) s = t
type_of_instruction (Instruction.bit_cast v t) s = t
type_of_instruction _ s = Ty.void

abbrev type_of_constant : Constant → Ty
type_of_constant (Constant.integer_value t bits val) = t
type_of_constant (Constant.single_value val) = Ty.float
type_of_constant (Constant.double_value val) = Ty.double
type_of_constant (Constant.pointer_null t) = t
type_of_constant (Constant.size_of t) = Ty.integer 64

abbrev digits_of_instruction : Instruction → Typed → ℕ
digits_of_instruction (Instruction.binary Opcode.xor a b) s = bit_xor (s.digits a) (s.digits b)
digits_of_instruction _ s = 0

abbrev digits_of_constant : Constant → ℕ
digits_of_constant (Constant.integer_value t bits val) = val
digits_of_constant _ = 0

abbrev kind : Ty → ℕ
kind Ty.void = 1
kind (Ty.integer bits) = bits + 16
kind Ty.float = 2
kind Ty.double = 3
kind (Ty.pointer t) = 4
kind (Ty.function r p a) = 5
kind _ = 6

abbrev pub typed : Llvm
typed = record {
  State = Typed;
  type_handle = kind;
  type_at = λ h. if h == 5 then Ty.function Ty.void Tys.no_tys false else Ty.integer h;
  can_losslessly_bit_cast_to = λ a b. kind a == kind b;
  new_module = λ name. make Ty.other;
  delete_module = λ m s. s;
  create_function = λ t name m. make (Ty.pointer t);
  get_function = λ m name s. 0;
  get_arg = λ f i s. 0;
  create_basic_block = λ name f. make Ty.other;
  block_is_empty = λ b s. true;
  block_back = λ b s. 0;
  get_type = λ v s. s.types v;
  is_function = λ v s. false;
  is_terminator = λ v s. false;
  set_name = λ v name s. s;
  constant = λ c s. ok (make_digits (type_of_constant c) (digits_of_constant c) s);
  get_insert_block = λ s. 1;
  set_insert_point = λ b s. s;
  build = λ i s. ok (make_digits (type_of_instruction i s) (digits_of_instruction i s) s);
  add_incoming = λ p v b s. ok s;
  create_engine = λ m s. (0, s);
  finalize_object = λ e s. s;
  run_function = λ e f s. ok s;
  target_machine = λ s. record {
    target_found = true;
    machine_made = true;
    file_opened = true;
    cannot_emit = false;
  };
  set_target = λ m s. s;
  open_output = λ s. s;
  run_passes = λ m s. s;
}

abbrev pub Made : Handle → Typed → Type 0
Made v s = (0 < v) × (v ≤ s.count)

same-true : (n : ℕ) → (n == n) ≡ true
same-true n = ground arith

pub make-Gives : (t : Ty) (d : ℕ) (s : Typed) → Gives typed Made t s (ok (make_digits t d s))
make-Gives t d s =
    gives (omega arith, omega arith) (rw (same-true (suc s.count)) refl) refl
      λ w m.
        let e : (w == suc s.count) ≡ false = ground arith in ((m.0, omega arith), (rw e refl, refl))

-- The value is made, and is the integer.
abbrev pub Is : Handle → Typed → ℕ → Type 0
Is v s x = Made v s × (s.digits v ≡ x)

pub make-Computed :
    (bits x : ℕ) (s : Typed) → Computed typed Is bits x s (ok (make_digits (Ty.integer bits) x s))
make-Computed bits x s =
    computed ((omega arith, omega arith), rw (same-true (suc s.count)) refl)
      (rw (same-true (suc s.count)) refl)
      λ w y m.
        let e : (w == suc s.count) ≡ false = ground arith in
        (((m.0.0, omega arith), rw e m.1), rw e refl)

abbrev pub typed-IsComputing : IsComputing typed
typed-IsComputing = record {
  Computes = Is;
  computes-ne_zero = λ v s x c. omega arith;
  constant = λ bits val s h. make-Computed bits val s;
  xor = λ a b bits x y s ea eb ca cb. rw (ea, ca.1, cb.1) (make-Computed bits (bit_xor x y) s);
}

pub kind-ne_zero : (t : Ty) → kind t ≢ 0
kind-ne_zero (Ty.integer bits) = omega arith
kind-ne_zero _ = omega arith

abbrev pub typed-IsLawful : IsLawful typed
typed-IsLawful = record {
  Live = Made;
  live-ne_zero = λ v s l. omega arith;
  type_handle-ne_zero = kind-ne_zero;
  create_function-ne_zero = λ t name m s. omega arith;
  constant_integer = λ bits val s. make-Gives (Ty.integer bits) _ s;
  constant_double = λ val s. make-Gives Ty.double _ s;
  load = λ v t s l e h. rw e (make-Gives t _ s);
  binary_integer = λ op a b n s f la lb ea eb. rw ea (make-Gives (Ty.integer n) _ s);
  binary_floating = λ op a b t s f h la lb ea eb. rw ea (make-Gives t _ s);
  cmp_integer = λ p a b n s f la lb ea eb. make-Gives (Ty.integer 1) _ s;
  cmp_floating = λ p a b t s f h la lb ea eb. make-Gives (Ty.integer 1) _ s;
  si_to_fp = λ a n t s h la ea. make-Gives t _ s;
  ptr_to_int = λ a t n s la ea. make-Gives (Ty.integer n) _ s;
}
