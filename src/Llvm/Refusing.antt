-- ===== src/Llvm/Refusing.antt =====
-- The methods of src/omis/llvm/llvm.cxx that have no result for their operands.
use eokas_lang.Prelude.{
  ◌≡◌, ◌≢◌, refl, Bool, true, false, ◌||◌, ◌&&◌, List, [], ◌∷◌, Fault, no_return, ok, fault,
  Run-cases, ◌⊎◌, inl, inr, if◌then◌else◌,
}
use eokas_lang.Omis.Bridge.{Handle, Op, BinaryIns}
use eokas_lang.Llvm.Api.{Ty, Opcode, Instruction, Llvm}
use eokas_lang.Llvm.Monad.{◌>>=◌, ◌>>◌, runs}
use eokas_lang.Llvm.Types.{is_integer_ty, is_integer_ty_of, is_floating_point_ty, is_pointer_ty}
use eokas_lang.Llvm.Values.{phi, add_incomings, count_incomings}
use eokas_lang.Llvm.Operators
use eokas_lang.Llvm.Operators.{ArithOp, CmpOp, arith_on, cmp_on, cmp, logical, bitwise, binary_with}
use eokas_lang.Llvm.Backend.{binary}
use eokas_lang.Llvm.Giving.{value_type-object}

module _ (L : Llvm) where
  add_incomings-then :
      (p : Handle) (incomings : List (Handle × Handle)) (f : Op L.State Handle) (s : L.State)
      → ((u : L.State) → (e : Fault) × (f u ≡ fault e))
      → (e : Fault) × ((add_incomings L p incomings >> f) s ≡ fault e)
  add_incomings-then p [] f s h = h s
  add_incomings-then p ((v, b) ∷ rest) f s h = elim (Run-cases (L.add_incoming p v b s)) [
    | inl (u, q) ↦ let (e, r) = add_incomings-then p rest f u h in (e, rw (◌>>=◌, runs, q) r)
    | inr (e, q) ↦ (e, rw (◌>>=◌, runs, q) refl)
  ]

  -- phi has no return statement, so no call of it returns.
  pub phi-fault :
      (type : Handle) (incomings : List (Handle × Handle)) (s : L.State)
      → (e : Fault) × (phi L type incomings s ≡ fault e)
  unfolding phi
  phi-fault type incomings s =
      elim (Run-cases (L.build (Instruction.phi (L.type_at type) (count_incomings incomings)) s)) [
        | inl ((p, u), q) ↦
            let (e, r) = add_incomings-then p incomings (λ t. fault no_return) u λ t. (_, refl) in
            (e, rw (◌>>=◌, runs, q) r)
        | inr (e, q) ↦ (e, rw (◌>>=◌, runs, q) refl)
      ]

-- An integer, a floating-point number or a pointer.
abbrev pub is_scalar : Ty → Bool
is_scalar t = is_integer_ty t || is_floating_point_ty t || is_pointer_ty t

-- No test of the operators holds for another type.
data Unfit (t : Ty) : Type 0 where
  unfit :
      is_integer_ty t ≡ false
      → is_floating_point_ty t ≡ false
      → is_pointer_ty t ≡ false
      → is_integer_ty_of 1 t ≡ false
      → Unfit t

Unfit-scalar : (t : Ty) → is_scalar t ≡ false → Unfit t
Unfit-scalar (Ty.integer n) e = cc
Unfit-scalar Ty.float e = cc
Unfit-scalar Ty.double e = cc
Unfit-scalar Ty.other_floating e = cc
Unfit-scalar (Ty.pointer t) e = cc
Unfit-scalar _ e = unfit refl refl refl refl

and_false : (b : Bool) → (b && false) ≡ false
and_false true = refl
and_false false = refl

module _ (L : Llvm) (a b : Handle) (l r : Ty) (s : L.State) where
  arith_on-null : (op : ArithOp) → Unfit l ⊎ Unfit r → arith_on L op a b l r s ≡ ok (0, s)
  unfolding arith_on
  arith_on-null op (inl (unfit i f p o)) = rw (i, f) refl
  arith_on-null op (inr (unfit i f p o)) =
      rw (i, f, and_false (is_integer_ty l), and_false (is_floating_point_ty l)) refl

  cmp_on-null : (op : CmpOp) → Unfit l ⊎ Unfit r → cmp_on L op a b l r s ≡ ok (0, s)
  unfolding cmp_on
  cmp_on-null op (inl (unfit i f p o)) = rw (i, f, p) refl
  cmp_on-null op (inr (unfit i f p o)) =
      rw
        (
          i,
          f,
          p,
          and_false (is_integer_ty l),
          and_false (is_floating_point_ty l),
          and_false (is_pointer_ty l),
        )
        refl

  both-null :
      (m : Op L.State Handle)
      → Unfit l ⊎ Unfit r
      → (if is_integer_ty l && is_integer_ty r then m else Operators.invalid L) s ≡ ok (0, s)
  both-null m (inl (unfit i f p o)) = rw i refl
  both-null m (inr (unfit i f p o)) = rw (i, and_false (is_integer_ty l)) refl

  bools-null :
      (m : Op L.State Handle)
      → Unfit l ⊎ Unfit r
      → (if is_integer_ty_of 1 l && is_integer_ty_of 1 r then m else Operators.invalid L) s
        ≡ ok (0, s)
  bools-null m (inl (unfit i f p o)) = rw o refl
  bools-null m (inr (unfit i f p o)) = rw (o, and_false (is_integer_ty_of 1 l)) refl

-- Two objects of which one has an unfit type.
module _ (L : Llvm) (a b : Handle) (s : L.State) (na : a ≢ 0) (nb : b ≢ 0)
    (u : Unfit (L.get_type a s) ⊎ Unfit (L.get_type b s)) where
  arith-null : (op : ArithOp) → Operators.arith L op a b s ≡ ok (0, s)
  unfolding Operators.arith
  arith-null op =
      rw (◌>>=◌, value_type-object L a s na, value_type-object L b s nb)
        (arith_on-null L a b _ _ s op u)

  cmp-null : (op : CmpOp) → cmp L op a b s ≡ ok (0, s)
  unfolding cmp
  cmp-null op =
      rw (◌>>=◌, value_type-object L a s na, value_type-object L b s nb)
        (cmp_on-null L a b _ _ s op u)

  logical-null : (op : Opcode) → logical L op a b s ≡ ok (0, s)
  unfolding logical
  logical-null op =
      rw (◌>>=◌, value_type-object L a s na, value_type-object L b s nb)
        (bools-null L a b _ _ s (binary_with L op a b) u)

  bitwise-null : (op : Opcode) → bitwise L op a b s ≡ ok (0, s)
  unfolding bitwise
  bitwise-null op =
      rw (◌>>=◌, value_type-object L a s na, value_type-object L b s nb)
        (both-null L a b _ _ s (binary_with L op a b) u)

  binary-null_each : (ins : BinaryIns) → binary L ins a b s ≡ ok (0, s)
  unfolding binary
  binary-null_each BinaryIns.add = arith-null _
  binary-null_each BinaryIns.sub = arith-null _
  binary-null_each BinaryIns.mul = arith-null _
  binary-null_each BinaryIns.div = arith-null _
  binary-null_each BinaryIns.mod_ins = arith-null _
  binary-null_each BinaryIns.eq = cmp-null _
  binary-null_each BinaryIns.ne = cmp-null _
  binary-null_each BinaryIns.gt = cmp-null _
  binary-null_each BinaryIns.ge = cmp-null _
  binary-null_each BinaryIns.lt = cmp-null _
  binary-null_each BinaryIns.le = cmp-null _
  binary-null_each BinaryIns.l_and = logical-null _
  binary-null_each BinaryIns.l_or = logical-null _
  binary-null_each BinaryIns.b_and = bitwise-null _
  binary-null_each BinaryIns.b_or = bitwise-null _
  binary-null_each BinaryIns.b_xor = bitwise-null _
  binary-null_each BinaryIns.b_shl = bitwise-null _
  binary-null_each BinaryIns.b_shr = bitwise-null _

-- Over any LLVM, on two objects of which one is no integer, no floating-point number and no pointer, each of the 18
-- binary operators makes no instruction and returns null.
pub binary-null :
    (L : Llvm) (ins : BinaryIns) (a b : Handle) (s : L.State)
    → a ≢ 0
    → b ≢ 0
    → (is_scalar (L.get_type a s) ≡ false) ⊎ (is_scalar (L.get_type b s) ≡ false)
    → binary L ins a b s ≡ ok (0, s)
binary-null L ins a b s na nb (inl e) = binary-null_each L a b s na nb (inl (Unfit-scalar _ e)) ins
binary-null L ins a b s na nb (inr e) = binary-null_each L a b s na nb (inr (Unfit-scalar _ e)) ins
