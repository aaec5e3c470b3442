-- ===== src/Llvm/Tests.antt =====
-- The theorems of src/omis/llvm/llvm.cxx at the LLVM of Llvm/Sample.
use eokas_lang.Prelude.{
  ℕ, ◌-◌, ◌≤◌, ◌≡◌, ◌≢◌, refl, true, ◌==◌, none, [], codes, if◌then◌else◌, arith, ◌↔◌,
}
use Prim.Native.Nat.{◌^◌}
use eokas_lang.Parser.Monad.{done}
use eokas_lang.Ast.{Expr}
use eokas_lang.Ast.Int.{pos}
use eokas_lang.Omis.Bridge.{Handle}
use eokas_lang.Omis.State.{OmisValue, OmisModule}
use eokas_lang.Coder.Encode.{encode_expr}
use eokas_lang.Llvm.Operators
use eokas_lang.Llvm.Operators.{ArithOp, CmpOp, cmp, b_flip}
use eokas_lang.Llvm.Pointers.{get_ptr_val, get_ptr_ref}
use eokas_lang.Llvm.Backend.{llvm_bridge}
use eokas_lang.Llvm.Following.{get_ptr_val-Gives}
use eokas_lang.Llvm.Combining.{integer_double, arith-Gives}
use eokas_lang.Llvm.Masks.{flip_low}
use eokas_lang.Llvm.Flipping.{b_flip-Computed}
use eokas_lang.Llvm.Coding.{trinary-not_done}
use eokas_lang.Ast.Oper.{BinaryOper}
use eokas_lang.Coder.Numbers.{
  Number, HasNumber, int_number, float_number, arithmetic_number, is_add,
}
use eokas_lang.Llvm.Typing.{llvm-encode_expr}
use eokas_lang.Llvm.Api.{Ty}
use eokas_lang.Llvm.Laws.{Gives, Computed}
use eokas_lang.Llvm.Sample.{Typed, typed, Made, Is, typed-IsComputing, typed-IsLawful}

-- A pointer to a pointer to an `i32`, an `i32`, a double, a struct and an `i64`.
abbrev slot_type : ℕ → Ty
slot_type h =
    if h == 1
    then Ty.pointer (Ty.pointer (Ty.integer 32))
    else if h == 2
    then Ty.integer 32
    else if h == 3
    then Ty.double
    else if h == 5
    then Ty.integer 64
    else Ty.struct (codes "s")

abbrev slots : Typed
slots = record { count = 5; types = slot_type; digits = λ h. if h == 5 then 7 else 0 }

get_ptr_val-Gives_example :
    Gives typed Made (Ty.integer 32) slots (get_ptr_val typed 1 slots)
    × Gives typed Made (Ty.pointer (Ty.integer 32)) slots (get_ptr_ref typed 1 slots)
get_ptr_val-Gives_example =
    get_ptr_val-Gives typed typed-IsLawful 1 slots (omega arith, omega arith) refl refl

arith-Gives_example :
    Gives typed Made Ty.double slots (Operators.arith typed ArithOp.add 2 3 slots)
    × Gives typed Made (Ty.integer 1) slots (cmp typed CmpOp.lt 2 3 slots)
arith-Gives_example =
    arith-Gives typed typed-IsLawful ArithOp.add CmpOp.lt 2 3 Ty.double slots
      (omega arith, omega arith) (omega arith, omega arith) (integer_double 32)

b_flip-Computed_example :
    Computed typed Is 64 (flip_low 32 7) slots (b_flip typed 5 slots)
    × ((64 ≤ 32) ↔ (flip_low 32 7 ≡ 2 ^ 64 - 1 - 7))
b_flip-Computed_example =
    b_flip-Computed typed typed-IsComputing 5 64 7 slots refl ((omega arith, omega arith), refl)
      (omega arith)

-- A module that writes into the slots.
abbrev llvm_module : OmisModule ⦃B = llvm_bridge typed⦄
llvm_module = record {
  bridge = slots;
  name = codes "m";
  handle = 1;
  scope = record { func = none; types = []; values = [] };
  parents = [];
  usings = [];
  types = [];
  values = [];
  break_point = none;
  continue_point = none;
  statics = λ b. none;
  next_id = 1;
}

abbrev value_in : Handle → OmisValue
value_in h = record { id = 0; type = record { id = 0; handle = 1; name = [] }; handle = h }

trinary-not_done_example :
    encode_expr ⦃B = llvm_bridge typed⦄
      (Expr.trinary (Expr.literal_bool true) (Expr.literal_int (pos 1)) (Expr.literal_int (pos 2)))
      llvm_module
    ≢ done (value_in 2) llvm_module
trinary-not_done_example =
    trinary-not_done typed (Expr.literal_bool true) (Expr.literal_int (pos 1))
      (Expr.literal_int (pos 2)) (value_in 2) llvm_module llvm_module

-- `2 + <a floating-point literal>`
abbrev mixed : Expr
mixed = Expr.binary BinaryOper.add (Expr.literal_int (pos 2)) (Expr.literal_float 7)

mixed-HasNumber : HasNumber mixed Number.f64
mixed-HasNumber = arithmetic_number is_add (int_number refl) float_number

llvm-encode_expr_example :
    (v : OmisValue) × ((u : OmisModule ⦃B = llvm_bridge typed⦄) × ((encode_expr
            ⦃B = llvm_bridge typed⦄ mixed llvm_module
          ≡ done v u)
        × (Made v.handle u.bridge × (typed.get_type v.handle u.bridge ≡ Ty.double))))
llvm-encode_expr_example =
    llvm-encode_expr typed typed-IsLawful mixed Number.f64 llvm_module mixed-HasNumber (tt, tt)
