-- ===== src/Coder/Constants.antt =====
-- The constant of an integer literal, encode_expr_int of src/omis/x-module-coder.cpp.
use Prim.Native.Nat.{◌^◌}
use eokas_lang.Prelude.{
  ℕ, ◌-◌, ◌<◌, ◌≡◌, refl, leb, true, false, Bool-cases, ◌⊎◌, inl, inr, if◌then◌else◌, arith,
}
use eokas_lang.Ast.Int.{ℤ, pos, negsuc}
use eokas_lang.Omis.Bridge.{Bridge}
use eokas_lang.Omis.Objects.{value_integer}
use eokas_lang.Coder.Nodes.{to_u64, encode_expr_int}

-- The numbers of 64 bits with a sign.
abbrev pub IsI64 : ℤ → Type 0
IsI64 (pos n) = n < 2 ^ 63
IsI64 (negsuc n) = n < 2 ^ 63

-- The number that 64 bits are for.
abbrev pub from_u64 : ℕ → ℤ
from_u64 v = if leb (2 ^ 63) v then negsuc (2 ^ 64 - 1 - v) else pos v

to_u64-bound : (z : ℤ) → IsI64 z → to_u64 z < 2 ^ 64
to_u64-bound (pos n) h = omega arith
to_u64-bound (negsuc n) h = omega arith

from_u64-to_u64 : (z : ℤ) → IsI64 z → from_u64 (to_u64 z) ≡ z
from_u64-to_u64 (pos n) h = let q : leb (2 ^ 63) n ≡ false = ground arith in rw q refl
from_u64-to_u64 (negsuc n) h =
    let q : leb (2 ^ 63) (2 ^ 64 - 1 - n) ≡ true = ground arith in
    let d : 2 ^ 64 - 1 - (2 ^ 64 - 1 - n) ≡ n = omega arith in rw (q, d) refl

module _ ⦃B : Bridge⦄ where
  -- The constant of a literal of 64 bits has 32 or 64 bits, its value fits in them, and the 64 bits of that value
  -- are for the literal.
  pub encode_expr_int-bits :
      (z : ℤ)
      → IsI64 z
      → (bits : ℕ) × (((bits ≡ 32) ⊎ (bits ≡ 64))
          × ((encode_expr_int z ≡ value_integer (to_u64 z) bits)
              × ((to_u64 z < 2 ^ bits) × (from_u64 (to_u64 z) ≡ z))))
  unfolding encode_expr_int
  encode_expr_int-bits z h = elim (Bool-cases (leb (to_u64 z) 0xFFFFFFFF)) [
    | inl q ↦ (32, (inl refl, (rw (encode_expr_int, q) refl, (ground arith, from_u64-to_u64 z h))))
    | inr q ↦
        (64, (inr refl, (rw (encode_expr_int, q) refl, (to_u64-bound z h, from_u64-to_u64 z h))))
  ]
