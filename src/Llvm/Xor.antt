-- ===== src/Llvm/Xor.antt =====
-- `bit_xor` with a mask of low bits, as arithmetic.
use Prim.Native.Nat.{◌/◌, ◌%◌, ◌^◌, bit_xor, bit_xor-bitwise, digits, differ}
use native.Mathlib.Nat.{pow-suc, two-pow-succ, one-le-pow}
use eokas_lang.Prelude.{ℕ, zero, suc, ◌+◌, ◌*◌, ◌-◌, ◌≤◌, ◌<◌, ◌≡◌, refl, sym, ap, ◌∙◌, arith}

abbrev xor_digits : ℕ → ℕ → ℕ → ℕ
xor_digits n a b = digits (λ y. y) differ n a b

-- Any count of digits that is enough gives the same number.
xor_digits-enough : (n a b : ℕ) → a ≤ n → xor_digits n a b ≡ bit_xor a b
xor_digits-enough n a b h = go n a a b h (omega arith) ∙ sym (bit_xor-bitwise a b)
  where
    go : (n m a b : ℕ) → a ≤ n → a ≤ m → xor_digits n a b ≡ xor_digits m a b
    go zero zero zero b p q = refl
    go zero (suc m) zero b p q = refl
    go (suc n) zero zero b p q = refl
    go (suc n) (suc m) zero b p q = refl
    go (suc n) (suc m) (suc a) b p q =
        ap (λ d. d * 2 + differ (suc a % 2) (b % 2))
          (go n m (suc a / 2) (b / 2) (omega arith) (omega arith))
    go zero m (suc a) b p q = absurd (omega (arith, p))
    go n zero (suc a) b p q = absurd (omega (arith, q))

differ-one : (b : ℕ) → b < 2 → differ b 1 ≡ 1 - b
differ-one zero h = refl
differ-one (suc zero) h = refl
differ-one (suc (suc b)) h = absurd (omega (arith, h))

differ-zero : (b : ℕ) → differ b 0 ≡ b
differ-zero zero = refl
differ-zero (suc b) = refl

zero-bit_xor : (b : ℕ) → bit_xor 0 b ≡ b
zero-bit_xor b = bit_xor-bitwise 0 b

-- One step, from the lowest digit on.
bit_xor-step : (a b : ℕ) → bit_xor a b ≡ bit_xor (a / 2) (b / 2) * 2 + differ (a % 2) (b % 2)
bit_xor-step zero b = omega (arith, zero-bit_xor b, zero-bit_xor (b / 2))
bit_xor-step (suc a) b =
    bit_xor-bitwise (suc a) b
    ∙ ap (λ d. d * 2 + differ (suc a % 2) (b % 2))
        (xor_digits-enough a (suc a / 2) (b / 2) (omega arith))

bit_xor-zero : (n a : ℕ) → a ≤ n → bit_xor a 0 ≡ a
bit_xor-zero n zero h = zero-bit_xor 0
bit_xor-zero zero (suc a) h = absurd (omega (arith, h))
bit_xor-zero (suc n) (suc a) h = omega (
  arith,
  bit_xor-step (suc a) 0,
  bit_xor-zero n (suc a / 2) (omega arith),
  differ-zero (suc a % 2),
)

-- The digits of the second number below `k` are all one: those of the first are flipped.
pub bit_xor-low :
    (k q r : ℕ) → r < 2 ^ k → bit_xor (q * 2 ^ k + r) (2 ^ k - 1) ≡ q * 2 ^ k + (2 ^ k - 1 - r)
bit_xor-low zero q r h =
    let e : q * 2 ^ 0 + r ≡ q = omega (arith, h) in
    rw e (bit_xor-zero q q (omega arith) ∙ omega (arith, h))
bit_xor-low (suc k) q r h =
    let pos = one-le-pow k 2 (omega arith) in
    let twice : q * 2 ^ suc k ≡ 2 * (q * 2 ^ k) =
      omega (arith, ap (λ (p : ℕ). q * p) (pow-suc 2 k)) in
    let half : (q * 2 ^ suc k + r) / 2 ≡ q * 2 ^ k + r / 2 = omega (arith, twice) in
    let ones : (2 ^ suc k - 1) / 2 ≡ 2 ^ k - 1 = omega (arith, pos, two-pow-succ k) in
    let last : (2 ^ suc k - 1) % 2 ≡ 1 = omega (arith, pos, two-pow-succ k) in
    let low : (q * 2 ^ suc k + r) % 2 ≡ r % 2 = omega (arith, twice) in
    let ih = bit_xor-low k q (r / 2) (omega (arith, h, two-pow-succ k)) in
    let one = differ-one (r % 2) (omega arith) in
    bit_xor-step (q * 2 ^ suc k + r) (2 ^ suc k - 1)
    ∙ rw (half, ones, last, low, ih, one) (omega (arith, h, twice, two-pow-succ k))
