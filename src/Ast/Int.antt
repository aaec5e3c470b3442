-- ===== src/Ast/Int.antt =====
-- Signed integers, and the 32-bit `int` of src/app/parser.cxx with its wrap-around.
use Prim.Native.Nat.{◌%◌, ◌^◌}
use eokas_lang.Prelude.{ℕ, zero, suc, ◌+◌, ◌-◌, leb, if◌then◌else◌}

-- `negsuc n` is -(n + 1).
pub data ℤ : Type 0 where
  pos : ℕ → ℤ
  negsuc : ℕ → ℤ

-- static_cast<i32_t>
unfoldable pub to_i32 : ℤ → ℤ
to_i32 (pos n) = let m = n % 2 ^ 32 in if leb (2 ^ 31) m then negsuc (2 ^ 32 - 1 - m) else pos m
to_i32 (negsuc n) = let m = n % 2 ^ 32 in if leb (2 ^ 31) m then pos (2 ^ 32 - 1 - m) else negsuc m

abbrev increment : ℤ → ℤ
increment (pos n) = pos (n + 1)
increment (negsuc zero) = pos 0
increment (negsuc (suc n)) = negsuc n

-- `index += 1` on an `int`
unfoldable pub next_i32 : ℤ → ℤ
unfolding to_i32
next_i32 z = to_i32 (increment z)
