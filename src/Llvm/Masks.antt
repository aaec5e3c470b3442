-- ===== src/Llvm/Masks.antt =====
-- The mask of b_flip of src/omis/llvm/llvm.cxx.
use Prim.Native.Nat.{◌/◌, ◌%◌, ◌^◌, bit_xor}
use native.Mathlib.Nat.{
  two-pow-succ, mul-add-mod_self_right, mod-eq_of_lt, pow-le-pow_right, mod-lt, div-add-mod',
  div-eq_of_lt,
}
use eokas_lang.Prelude.{
  ℕ, zero, suc, ◌+◌, ◌*◌, ◌-◌, ◌≤◌, ◌<◌, ◌≡◌, refl, sym, ap, ◌∙◌, ◌↔◌, arith, leb, Bool-cases,
  if◌then◌else◌, inl, inr,
}
use eokas_lang.Llvm.Operators.{flip_mask}
use eokas_lang.Llvm.Xor.{bit_xor-low}

pub pow-pos : (n : ℕ) → 0 < 2 ^ n
pow-pos zero = omega arith
pow-pos (suc n) = omega (arith, pow-pos n, two-pow-succ n)

pow-add : (m n : ℕ) → 2 ^ (m + n) ≡ 2 ^ m * 2 ^ n
pow-add m zero = let e : m + 0 ≡ m = omega arith in rw e (omega arith)
pow-add m (suc n) = grind (arith, pow-add m n, two-pow-succ n, two-pow-succ (m + n))

-- All the bits below a power are what is left of all the bits below a multiple of it.
all_ones-mod : (p q : ℕ) → 0 < p → 0 < q → (q * p - 1) % p ≡ p - 1
all_ones-mod (suc p) (suc q) hp hq =
    let e : suc q * suc p - 1 ≡ q * suc p + p = grind arith in
    ap (λ x. x % suc p) e
    ∙ mul-add-mod_self_right q (suc p) p
    ∙ mod-eq_of_lt (omega arith)
    ∙ omega arith
all_ones-mod zero q hp hq = absurd (omega (arith, hp))
all_ones-mod (suc p) zero hp hq = absurd (omega (arith, hq))

narrow : (bits : ℕ) → bits ≤ 32 → flip_mask bits ≡ 2 ^ bits - 1
narrow bits h =
    let full : 32 - bits + bits ≡ 32 = omega arith in
    let e : 2 ^ (32 - bits) * 2 ^ bits ≡ 2 ^ 32 =
      sym (pow-add (32 - bits) bits) ∙ ap (λ n. 2 ^ n) full in
    ap (λ n. (n - 1) % 2 ^ bits) (sym e)
    ∙ all_ones-mod (2 ^ bits) (2 ^ (32 - bits)) (pow-pos bits) (pow-pos (32 - bits))

wide : (bits : ℕ) → 32 < bits → flip_mask bits ≡ 0xFFFFFFFF
wide bits h =
    let big : 2 ^ 33 ≤ 2 ^ bits = pow-le-pow_right (omega arith) h in
    mod-eq_of_lt (omega (arith, big))

-- The bits that b_flip flips of an integer of `bits` bits.
abbrev pub flipped_bits : ℕ → ℕ
flipped_bits bits = if leb bits 32 then bits else 32

-- `x` with its lowest `k` bits flipped.
abbrev pub flip_low : ℕ → ℕ → ℕ
flip_low k x = x / 2 ^ k * 2 ^ k + (2 ^ k - 1 - x % 2 ^ k)

pub flip_mask-low : (bits : ℕ) → flip_mask bits ≡ 2 ^ flipped_bits bits - 1
flip_mask-low bits = elim (Bool-cases (leb bits 32)) [
  | inl q ↦ rw q (narrow bits (ground arith))
  | inr q ↦ rw q (wide bits (ground arith))
]

pub bit_xor-flip_low : (k x : ℕ) → bit_xor x (2 ^ k - 1) ≡ flip_low k x
bit_xor-flip_low k x =
    let low = mod-lt x (pow-pos k) in
    let parts : x / 2 ^ k * 2 ^ k + x % 2 ^ k ≡ x = div-add-mod' x (2 ^ k) in
    ap (λ y. bit_xor y (2 ^ k - 1)) (sym parts) ∙ bit_xor-low k (x / 2 ^ k) (x % 2 ^ k) low

-- All of the bits are flipped if and only if there are at most 32.
pub flip_low-all :
    (bits x : ℕ) → x < 2 ^ bits → (bits ≤ 32) ↔ (flip_low (flipped_bits bits) x ≡ 2 ^ bits - 1 - x)
flip_low-all bits x h = elim (Bool-cases (leb bits 32)) [
  | inl q ↦ (λ l. rw (q, div-eq_of_lt h, mod-eq_of_lt h) (omega arith), λ e. ground arith)
  | inr q ↦ (
    λ l. absurd (ground arith),
    λ e.
        let more : 32 < bits = ground arith in
        let full : bits - 33 + 33 ≡ bits = omega arith in
        let even : 2 ^ bits ≡ 2 ^ (bits - 33) * 2 ^ 33 =
          ap (λ n. 2 ^ n) (sym full) ∙ pow-add (bits - 33) 33 in
        let low : x / 2 ^ 32 * 2 ^ 32 + x % 2 ^ 32 ≡ x = div-add-mod' x (2 ^ 32) in
        let same : flip_low 32 x ≡ 2 ^ bits - 1 - x = sym (rw q refl) ∙ e in
        absurd (omega (arith, even, low, same, h)),
  )
]
