-- ===== src/Llvm/Combining.antt =====
-- The operators of src/omis/llvm/llvm.cxx on two operands: which types they combine.
use eokas_lang.Prelude.{ℕ, ◌≡◌, refl, ◌∙◌, true, false}
use eokas_lang.Omis.Bridge.{Handle}
use eokas_lang.Llvm.Api.{Ty, Llvm}
use eokas_lang.Llvm.Monad.{◌>>=◌}
use eokas_lang.Llvm.Types.{is_integer_ty, is_floating_point_ty, is_pointer_ty}
use eokas_lang.Llvm.Operators
use eokas_lang.Llvm.Operators.{
  ArithOp, CmpOp, ins_i, ins_f, op_i, op_f, arith_on, cmp_on, cmp, binary_with, cmp_with, to_double,
}
use eokas_lang.Llvm.Laws.{is_f_op, is_f_cmp, Gives, IsLawful}
use eokas_lang.Llvm.Giving.{value_type-object, Gives-bind}

-- The pairs of types that arithmetic combines with no change of width, with the type of the result: two integers of
-- one width, two floating-point numbers of one type, and an integer with a double.
pub data Combine : Ty → Ty → Ty → Type 0 where
  integers : (n : ℕ) → Combine (Ty.integer n) (Ty.integer n) (Ty.integer n)
  floatings : (t : Ty) → is_floating_point_ty t ≡ true → Combine t t t
  integer_double : (n : ℕ) → Combine (Ty.integer n) Ty.double Ty.double
  double_integer : (n : ℕ) → Combine Ty.double (Ty.integer n) Ty.double

floating-integer : (t : Ty) → is_floating_point_ty t ≡ true → is_integer_ty t ≡ false
floating-integer (Ty.integer n) h = cc
floating-integer _ h = refl

floating-pointer : (t : Ty) → is_floating_point_ty t ≡ true → is_pointer_ty t ≡ false
floating-pointer (Ty.pointer t) h = cc
floating-pointer _ h = refl

ins_i-integer : (op : ArithOp) → is_f_op (ins_i op) ≡ false
ins_i-integer ArithOp.add = refl
ins_i-integer _ = refl

ins_f-floating : (op : ArithOp) → is_f_op (ins_f op) ≡ true
ins_f-floating ArithOp.add = refl
ins_f-floating _ = refl

op_i-integer : (op : CmpOp) → is_f_cmp (op_i op) ≡ false
op_i-integer CmpOp.eq = refl
op_i-integer _ = refl

op_f-floating : (op : CmpOp) → is_f_cmp (op_f op) ≡ true
op_f-floating CmpOp.eq = refl
op_f-floating _ = refl

module _ (L : Llvm) (law : IsLawful L) where
  module _ (a b : Handle) (s : L.State) (la : law.Live a s) (lb : law.Live b s) where
    arith_on-Gives :
        (op : ArithOp) (l r t : Ty)
        → L.get_type a s ≡ l
        → L.get_type b s ≡ r
        → Combine l r t
        → Gives L law.Live t s (arith_on L op a b l r s)
    unfolding arith_on
    arith_on-Gives op l r t ea eb (integers n) =
        law.binary_integer (ins_i op) a b n s (ins_i-integer op) la lb ea eb
    arith_on-Gives op l r t ea eb (floatings f h) =
        rw (floating-integer f h, h)
          (law.binary_floating (ins_f op) a b f s (ins_f-floating op) h la lb ea eb)
    arith_on-Gives op l r t ea eb (integer_double n) =
        Gives-bind L law (to_double L a) (λ x. binary_with L (ins_f op) x b) s
          (law.si_to_fp a n Ty.double s refl la ea)
          λ x u lx ex nx kept.
            let (lu, (eu, fu)) = kept b lb in
            law.binary_floating (ins_f op) x b Ty.double u (ins_f-floating op) refl lx lu ex
              (eu ∙ eb)
    arith_on-Gives op l r t ea eb (double_integer n) =
        Gives-bind L law (to_double L b) (λ x. binary_with L (ins_f op) a x) s
          (law.si_to_fp b n Ty.double s refl lb eb)
          λ x u lx ex nx kept.
            let (lu, (eu, fu)) = kept a la in
            law.binary_floating (ins_f op) a x Ty.double u (ins_f-floating op) refl lu lx (eu ∙ ea)
              ex

    cmp_on-Gives :
        (op : CmpOp) (l r t : Ty)
        → L.get_type a s ≡ l
        → L.get_type b s ≡ r
        → Combine l r t
        → Gives L law.Live (Ty.integer 1) s (cmp_on L op a b l r s)
    unfolding cmp_on
    cmp_on-Gives op l r t ea eb (integers n) =
        law.cmp_integer (op_i op) a b n s (op_i-integer op) la lb ea eb
    cmp_on-Gives op l r t ea eb (floatings f h) =
        rw (floating-integer f h, floating-pointer f h, h)
          (law.cmp_floating (op_f op) a b f s (op_f-floating op) h la lb ea eb)
    cmp_on-Gives op l r t ea eb (integer_double n) =
        Gives-bind L law (to_double L a) (λ x. cmp_with L (op_f op) x b) s
          (law.si_to_fp a n Ty.double s refl la ea)
          λ x u lx ex nx kept.
            let (lu, (eu, fu)) = kept b lb in
            law.cmp_floating (op_f op) x b Ty.double u (op_f-floating op) refl lx lu ex (eu ∙ eb)
    cmp_on-Gives op l r t ea eb (double_integer n) =
        Gives-bind L law (to_double L b) (λ x. cmp_with L (op_f op) a x) s
          (law.si_to_fp b n Ty.double s refl lb eb)
          λ x u lx ex nx kept.
            let (lu, (eu, fu)) = kept a la in
            law.cmp_floating (op_f op) a x Ty.double u (op_f-floating op) refl lu lx (eu ∙ ea) ex

  -- Over a lawful LLVM, on live operands whose types combine, arith gives a value of the type of the combination and
  -- cmp one of an `i1`, for every operator; the values before are left as they were.
  pub arith-Gives :
      (op : ArithOp) (c : CmpOp) (a b : Handle) (t : Ty) (s : L.State)
      → law.Live a s
      → law.Live b s
      → Combine (L.get_type a s) (L.get_type b s) t
      → Gives L law.Live t s (Operators.arith L op a b s)
        × Gives L law.Live (Ty.integer 1) s (cmp L c a b s)
  unfolding Operators.arith cmp
  arith-Gives op c a b t s la lb k =
      let left = value_type-object L a s (law.live-ne_zero a s la) in
      let right = value_type-object L b s (law.live-ne_zero b s lb) in
      (
        rw (◌>>=◌, left, right) (arith_on-Gives a b s la lb op _ _ t refl refl k),
        rw (◌>>=◌, left, right) (cmp_on-Gives a b s la lb c _ _ t refl refl k),
      )
