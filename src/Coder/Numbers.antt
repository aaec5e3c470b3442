-- ===== src/Coder/Numbers.antt =====
-- The numeric expressions of a program, and what their code, encode_expr of src/omis/x-module-coder.cpp, asks of
-- a backend that types its values.
use eokas_lang.Prelude.{ℕ, ◌≡◌, ◌≢◌, true, leb, ok, Run}
use eokas_lang.Ast.{Expr}
use eokas_lang.Ast.Oper.{BinaryOper}
use eokas_lang.Ast.Int.{ℤ}
use eokas_lang.Omis.Bridge.{Bridge, Handle, BinaryIns}
use eokas_lang.Omis.Quiet.{IsQuiet}
use eokas_lang.Coder.Nodes.{to_u64}

-- An `i32` and an `f64`.
pub data Number : Type 0 where
  i32 f64 : Number

-- The type of the arithmetic of two numbers.
abbrev pub join : Number → Number → Number
join Number.i32 l = l
join Number.f64 l = Number.f64

pub data IsArithmetic : BinaryOper → BinaryIns → Type 0 where
  is_add : IsArithmetic BinaryOper.add BinaryIns.add
  is_sub : IsArithmetic BinaryOper.sub BinaryIns.sub
  is_mul : IsArithmetic BinaryOper.mul BinaryIns.mul
  is_div : IsArithmetic BinaryOper.div BinaryIns.div
  is_mod : IsArithmetic BinaryOper.mod_op BinaryIns.mod_ins

-- The expressions of integer literals of at most 32 bits, of floating-point literals and of arithmetic.
pub data HasNumber : Expr → Number → Type 0 where
  int_number :
      {z : ℤ} → leb (to_u64 z) 0xFFFFFFFF ≡ true → HasNumber (Expr.literal_int z) Number.i32
  float_number : {f : ℕ} → HasNumber (Expr.literal_float f) Number.f64
  arithmetic_number :
      {op : BinaryOper} {ins : BinaryIns} {a b : Expr} {k l : Number}
      → IsArithmetic op ins
      → HasNumber a k
      → HasNumber b l
      → HasNumber (Expr.binary op a b) (join k l)

-- The call gives an object for which `Has` holds, and goes from `s` to a state that `Kept` allows.
pub data Gives {S : Type 0} (Has : Handle → S → Type 0) (Kept : S → S → Type 0) (s : S)
    : Run (Handle × S) → Type 0 where
  gives : {h : Handle} {u : S} → h ≢ 0 → Has h u → Kept s u → Gives Has Kept s (ok (h, u))

-- A backend that types its values, as far as arithmetic on numbers goes.
pub record IsTyping (B : Bridge) : Type 1 where
  pub Has : Number → Handle → B.State → Type 0
  pub Kept : B.State → B.State → Type 0
  pub kept_refl : (s : B.State) → Kept s s
  pub kept_trans : {s t u : B.State} → Kept s t → Kept t u → Kept s u
  pub kept_has : {k : Number} {h : Handle} {s t : B.State} → Kept s t → Has k h s → Has k h t
  pub is_quiet : IsQuiet B
  pub integer : (val : ℕ) (s : B.State) → Gives (Has Number.i32) Kept s (B.value_integer val 32 s)
  pub float : (val : ℕ) (s : B.State) → Gives (Has Number.f64) Kept s (B.value_float val s)
  pub get_ptr_val :
      (k : Number) (h : Handle) (s : B.State) → Has k h s → Gives (Has k) Kept s (B.get_ptr_val h s)
  pub binary :
      {op : BinaryOper} {ins : BinaryIns} (k l : Number) (a b : Handle) (s : B.State)
      → IsArithmetic op ins
      → Has k a s
      → Has l b s
      → Gives (Has (join k l)) Kept s (B.binary ins a b s)
