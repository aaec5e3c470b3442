-- ===== src/Llvm/Typing.antt =====
-- llvm_bridge_t of src/omis/llvm/llvm.cxx types its values, as far as arithmetic on numbers goes.
use eokas_lang.Prelude.{ℕ, ◌≡◌, refl, ◌∙◌, Run, true, false}
use eokas_lang.Ast.{Expr}
use eokas_lang.Omis.Bridge.{Handle, BinaryIns}
use eokas_lang.Parser.Monad.{done}
use eokas_lang.Ast.Oper.{BinaryOper}
use eokas_lang.Omis.State.{OmisValue, OmisModule}
use eokas_lang.Omis.Interned.{Interned}
use eokas_lang.Omis.Quiet.{IsQuiet}
use eokas_lang.Coder.Numbers
use eokas_lang.Coder.Numbers.{
  Number, join, IsArithmetic, is_add, is_sub, is_mul, is_div, is_mod, HasNumber, IsTyping,
}
use eokas_lang.Coder.Typing.{Yields, yields, encode_expr-Yields}
use eokas_lang.Coder.Encode.{encode_expr}
use eokas_lang.Llvm.Api.{Ty, Llvm}
use eokas_lang.Llvm.Monad.{◌>>=◌, type_of}
use eokas_lang.Llvm.Types.{get_type_name, ty_name, basic_ty}
use eokas_lang.Llvm.Values.{ap_int, value_integer, value_float, get_value_type}
use eokas_lang.Llvm.Operators
use eokas_lang.Llvm.Operators.{ArithOp, CmpOp}
use eokas_lang.Llvm.Pointers.{get_ptr_val}
use eokas_lang.Llvm.Backend.{type_basic, binary, llvm_bridge}
use eokas_lang.Llvm.Laws.{Gives, gives, IsLawful}
use eokas_lang.Llvm.Giving.{eq_zero-false, value_type-object, Keeps, Keeps-trans}
use eokas_lang.Llvm.Following.{leads, value_under, get_ptr_val-Gives}
use eokas_lang.Llvm.Combining.{
  Combine, integers, floatings, integer_double, double_integer, arith-Gives,
}

abbrev pub number_ty : Number → Ty
number_ty Number.i32 = Ty.integer 32
number_ty Number.f64 = Ty.double

-- The pairs of numbers combine to what `join` says.
combine : (k l : Number) → Combine (number_ty k) (number_ty l) (number_ty (join k l))
combine Number.i32 Number.i32 = integers 32
combine Number.i32 Number.f64 = integer_double 32
combine Number.f64 Number.i32 = double_integer 32
combine Number.f64 Number.f64 = floatings Ty.double refl

module _ (L : Llvm) (law : IsLawful L) where
  pub llvm_bridge-IsQuiet : IsQuiet (llvm_bridge L)
  unfolding type_basic get_type_name type_of get_value_type
  llvm_bridge-IsQuiet = record {
    type_basic = λ b s. (_, (law.type_handle-ne_zero (basic_ty b), refl));
    get_type_name = λ h n s. (ty_name (L.type_at h), rw (eq_zero-false h n) refl);
    get_value_type = λ h n s. (
      L.type_handle (L.get_type h s),
      (law.type_handle-ne_zero _, rw (◌>>=◌, value_type-object L h s n) refl),
    );
  }

  -- A live value of the number's type that is no function.
  abbrev pub Holds : Number → Handle → L.State → Type 0
  Holds k h s = law.Live h s × ((L.get_type h s ≡ number_ty k) × (L.is_function h s ≡ false))

  Holds-given :
      (k : Number) {t : Ty} {s : L.State} {r : Run (Handle × L.State)}
      → t ≡ number_ty k
      → Gives L law.Live t s r
      → Numbers.Gives (Holds k) (Keeps L law) s r
  Holds-given k q (gives {h} {u} l e n kept) =
      Numbers.gives (law.live-ne_zero h u l) (l, (e ∙ q, n)) kept

  arithmetic-given :
      (op : ArithOp) (k l : Number) (a b : Handle) (s : L.State)
      → Holds k a s
      → Holds l b s
      → Numbers.Gives (Holds (join k l)) (Keeps L law) s (Operators.arith L op a b s)
  arithmetic-given op k l a b s (la, (ea, na)) (lb, (eb, nb)) =
      let c : Combine (L.get_type a s) (L.get_type b s) (number_ty (join k l)) =
        rw (ea, eb) (combine k l) in
      Holds-given (join k l) refl
        (arith-Gives L law op CmpOp.eq a b (number_ty (join k l)) s la lb c).0

  pub get_ptr_val-given :
      (k : Number) (h : Handle) (s : L.State)
      → Holds k h s
      → Numbers.Gives (Holds k) (Keeps L law) s (get_ptr_val L h s)
  get_ptr_val-given Number.i32 h s (l, (e, n)) =
      let leads_on : leads (L.get_type h s) ≡ true = rw e refl in
      let end : value_under (L.get_type h s) ≡ Ty.integer 32 = rw e refl in
      Holds-given Number.i32 end (get_ptr_val-Gives L law h s l n leads_on).0
  get_ptr_val-given Number.f64 h s (l, (e, n)) =
      let leads_on : leads (L.get_type h s) ≡ true = rw e refl in
      let end : value_under (L.get_type h s) ≡ Ty.double = rw e refl in
      Holds-given Number.f64 end (get_ptr_val-Gives L law h s l n leads_on).0

  pub binary-given :
      {op : BinaryOper} {ins : BinaryIns} (k l : Number) (a b : Handle) (s : L.State)
      → IsArithmetic op ins
      → Holds k a s
      → Holds l b s
      → Numbers.Gives (Holds (join k l)) (Keeps L law) s (binary L ins a b s)
  unfolding binary
  binary-given k l a b s is_add ha hb = arithmetic-given ArithOp.add k l a b s ha hb
  binary-given k l a b s is_sub ha hb = arithmetic-given ArithOp.sub k l a b s ha hb
  binary-given k l a b s is_mul ha hb = arithmetic-given ArithOp.mul k l a b s ha hb
  binary-given k l a b s is_div ha hb = arithmetic-given ArithOp.div k l a b s ha hb
  binary-given k l a b s is_mod ha hb = arithmetic-given ArithOp.rem k l a b s ha hb

  pub integer-given :
      (val : ℕ) (s : L.State)
      → Numbers.Gives (Holds Number.i32) (Keeps L law) s (value_integer L val 32 s)
  unfolding value_integer
  integer-given val s = Holds-given Number.i32 refl (law.constant_integer 32 (ap_int 32 val) s)

  pub float-given :
      (val : ℕ) (s : L.State)
      → Numbers.Gives (Holds Number.f64) (Keeps L law) s (value_float L val s)
  unfolding value_float
  float-given val s = Holds-given Number.f64 refl (law.constant_double val s)

  -- The backend of a lawful LLVM types its values.
  abbrev pub llvm_bridge-IsTyping : IsTyping (llvm_bridge L)
  llvm_bridge-IsTyping = record {
    Has = Holds;
    Kept = Keeps L law;
    kept_refl = λ s v l. (l, (refl, refl));
    kept_trans = Keeps-trans L law;
    kept_has = λ {k} {h} {s} {t} kept has.
        let (l, (e, n)) = has in let (lt, (et, nt)) = kept h l in (lt, (et ∙ e, nt ∙ n));
    is_quiet = llvm_bridge-IsQuiet;
    integer = integer-given;
    float = float-given;
    get_ptr_val = get_ptr_val-given;
    binary = λ {op} {ins} k l a b s o ha hb. binary-given k l a b s o ha hb;
  }

  -- Over the backend of a lawful LLVM, and in a module in which each handle has one object, every expression of
  -- integer literals of at most 32 bits, floating-point literals and arithmetic is encoded, to a live value of LLVM's
  -- type for the expression: `i32` for integers alone, and else a double.
  pub llvm-encode_expr :
      (e : Expr) (k : Number) (s : OmisModule ⦃B = llvm_bridge L⦄)
      → HasNumber e k
      → Interned ⦃B = llvm_bridge L⦄ s
      → (v : OmisValue) × ((u : OmisModule ⦃B = llvm_bridge L⦄) × ((encode_expr ⦃B = llvm_bridge L⦄
                e s
              ≡ done v u)
            × (law.Live v.handle u.bridge × (L.get_type v.handle u.bridge ≡ number_ty k))))
  llvm-encode_expr e k s h i =
      by_end (encode_expr-Yields ⦃B = llvm_bridge L⦄ llvm_bridge-IsTyping e k s h i)
    where
      by_end :
          Yields ⦃B = llvm_bridge L⦄ llvm_bridge-IsTyping k (encode_expr ⦃B = llvm_bridge L⦄ e) s
          → (v : OmisValue) × ((u : OmisModule ⦃B = llvm_bridge L⦄) × ((encode_expr
                    ⦃B = llvm_bridge L⦄ e s
                  ≡ done v u)
                × (law.Live v.handle u.bridge × (L.get_type v.handle u.bridge ≡ number_ty k))))
      by_end (yields v u r (l, (t, n)) kept j) = (v, (u, (r, (l, t))))
