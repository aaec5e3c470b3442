-- ===== src/Llvm/Flipping.antt =====
-- What the code of b_flip of src/omis/llvm/llvm.cxx computes.
use Prim.Native.Nat.{◌^◌, bit_xor}
use native.Mathlib.Nat.{mod-lt}
use mathlib.Core.Path.{subst}
use eokas_lang.Prelude.{ℕ, ◌-◌, ◌≤◌, ◌<◌, ◌≡◌, ◌∙◌, ap, ◌↔◌, Run, ok, fault}
use eokas_lang.Omis.Bridge.{Handle, Op}
use eokas_lang.Llvm.Api.{Ty, Opcode, Constant, Llvm}
use eokas_lang.Llvm.Monad.{◌>>=◌}
use eokas_lang.Llvm.Operators.{flip_mask, flip_on, b_flip, binary_with}
use eokas_lang.Llvm.Giving.{value_type-object}
use eokas_lang.Llvm.Laws.{Computed, computed, IsComputing}
use eokas_lang.Llvm.Masks.{
  pow-pos, flipped_bits, flip_low, flip_mask-low, bit_xor-flip_low, flip_low-all,
}

module _ (L : Llvm) (law : IsComputing L) where
  Computed-bind :
      {m n x y : ℕ} (first : Op L.State Handle) (f : Handle → Op L.State Handle) (s : L.State)
      → Computed L law.Computes m x s (first s)
      → ((h : Handle) (u : L.State)
          → law.Computes h u x
          → L.get_type h u ≡ Ty.integer m
          → ((v : Handle) (z : ℕ)
              → law.Computes v s z
              → law.Computes v u z × (L.get_type v u ≡ L.get_type v s))
          → Computed L law.Computes n y u (f h u))
      → Computed L law.Computes n y s ((first >>= f) s)
  Computed-bind {m} {n} {x} {y} first f s g k = by_result (first s) g
    where
      later :
          {u : L.State} {r : Run (Handle × L.State)}
          → ((v : Handle) (z : ℕ)
              → law.Computes v s z
              → law.Computes v u z × (L.get_type v u ≡ L.get_type v s))
          → Computed L law.Computes n y u r
          → Computed L law.Computes n y s r
      later kept (computed c t more) =
          computed c t
            λ v z d. let (d', e) = kept v z d in let (d'', e') = more v z d' in (d'', e' ∙ e)

      by_result :
          (r : Run (Handle × L.State))
          → Computed L law.Computes m x s r
          → Computed L law.Computes n y s (elim r [ ok r ↦ f r.0 r.1 | fault e ↦ fault e ])
      by_result (fault why) z = elim z [ ]
      by_result (ok (h, u)) (computed c t kept) = later kept (k h u c t kept)

  flip_on-Computed :
      (a : Handle) (bits x : ℕ) (s : L.State)
      → L.get_type a s ≡ Ty.integer bits
      → law.Computes a s x
      → Computed L law.Computes bits
          (bit_xor x (flip_mask bits))
          s
          (flip_on L a (Ty.integer bits) s)
  unfolding flip_on
  flip_on-Computed a bits x s e c =
      Computed-bind (L.constant (Constant.integer_value (Ty.integer bits) bits (flip_mask bits)))
        (λ mask. binary_with L Opcode.xor a mask) s
        (law.constant bits (flip_mask bits) s (mod-lt 0xFFFFFFFF (pow-pos bits)))
        λ mask u d t kept.
          let (ca, ta) = kept a x c in law.xor a mask bits x (flip_mask bits) u (ta ∙ e) t ca d

  -- Over an LLVM whose constants and whose `xor` compute what its reference says: for an integer value of `bits` bits
  -- that is `x`, b_flip gives a value of `bits` bits that is `x` with its lowest bits flipped, all of them up to 32,
  -- and this is the complement of `x` if and only if there are at most 32 bits.
  pub b_flip-Computed :
      (a : Handle) (bits x : ℕ) (s : L.State)
      → L.get_type a s ≡ Ty.integer bits
      → law.Computes a s x
      → x < 2 ^ bits
      → Computed L law.Computes bits (flip_low (flipped_bits bits) x) s (b_flip L a s)
        × ((bits ≤ 32) ↔ (flip_low (flipped_bits bits) x ≡ 2 ^ bits - 1 - x))
  unfolding b_flip
  b_flip-Computed a bits x s e c h =
      let value : bit_xor x (flip_mask bits) ≡ flip_low (flipped_bits bits) x =
        ap (λ m. bit_xor x m) (flip_mask-low bits) ∙ bit_xor-flip_low (flipped_bits bits) x in
      (
        rw (◌>>=◌, value_type-object L a s (law.computes-ne_zero a s x c), e)
            (subst (λ n. Computed L law.Computes bits n s (flip_on L a (Ty.integer bits) s)) value
              (flip_on-Computed a bits x s e c)),
        flip_low-all bits x h,
      )
