-- ===== src/Scanner/Bounded/Reads.antt =====
-- Reads of src/app/scanner.cxx: `read_char` and the operations built from it.
use eokas_lang.Prelude.{
  ℕ, zero, suc, ◌<◌, ◌≤◌, ◌≡◌, ◌≢◌, refl, ap, Bool, true, false, [], ◌∷◌, arith, Bool-cases, inl,
  inr, Bytes, length, if◌then◌else◌, Run, ok, Ensures, holds, Ensures-if, Ensures-bind, Ensures-map,
}
use eokas_lang.Token.{Token}
use eokas_lang.Scanner.State.{
  Scanner, read_char, save_char, save_and_read_char, joins_break, new_line,
}
use eokas_lang.Scanner.Lexeme.{while_char}

-- The current character is a byte of a text, and what follows is the rest of the text with its
-- terminator; or it is the terminator, and nothing follows.
abbrev pub Terminated : ℕ → Bytes → Type 0
Terminated c [] = c ≡ 0
Terminated c (d ∷ rest) = (c ≢ 0) × Terminated d rest

-- The scanner stands in a terminated source with fewer than `n` bytes to read, and its look-ahead
-- token is `l`.
pub record IsBelow (l : Token) (n : ℕ) (s : Scanner) : Type 0 where
  pub terminated : Terminated s.current s.position
  pub look : s.look_ahead ≡ l
  pub short : length s.position < n

pub IsBelow-weaken :
    {l : Token} {n : ℕ} (m : ℕ) {s : Scanner} → n ≤ m → IsBelow l n s → IsBelow l m s
IsBelow-weaken m h b = record {
  terminated = b.terminated;
  look = b.look;
  short = omega (arith, b.short);
}

-- An operation that, at a byte of the text, uses up at least one byte.
abbrev pub Reads : (Scanner → Run Scanner) → Type 0
Reads f =
    (l : Token) (n : ℕ) (s : Scanner)
    → s.current ≢ 0
    → IsBelow l (suc n) s
    → Ensures (IsBelow l n) (f s)

-- A read in front of the terminator uses up a byte.
read_at :
    {l : Token} (n : ℕ) (p : Bytes) (s : Scanner)
    → s.position ≡ p
    → Terminated s.current p
    → s.look_ahead ≡ l
    → length p < suc n
    → s.current ≢ 0
    → Ensures (IsBelow l n) (read_char s)
unfolding read_char
read_at n [] s e t k h c = absurd (c t)
read_at n (d ∷ r) s e t k h c =
    rw (e, read_char) (holds (record { terminated = t.1; look = k; short = omega arith }))

pub read_char-Reads : Reads read_char
read_char-Reads l n s c b = read_at n s.position s refl b.terminated b.look b.short c

pub save_and_read_char-Reads : Reads save_and_read_char
unfolding save_and_read_char
save_and_read_char-Reads l n s c b =
    read_at n s.position (save_char s.current s) refl b.terminated b.look b.short c

-- The same with the bound left as it was.
pub Reads-keeps :
    {f : Scanner → Run Scanner} {l : Token}
    → Reads f
    → (n : ℕ) (s : Scanner) → s.current ≢ 0
    → IsBelow l n s
    → Ensures (IsBelow l n) (f s)
Reads-keeps r zero s c b = absurd (omega (arith, b.short))
Reads-keeps {l} r (suc n) s c b =
    Ensures-map (r l n s c b) λ t h. IsBelow-weaken (suc n) (omega arith) h

break_ne_zero : (old c : ℕ) → joins_break old c ≡ true → c ≢ 0
unfolding joins_break
break_ne_zero old c h = ground arith

after_break-IsBelow :
    {l : Token} (n old : ℕ) (s : Scanner)
    → IsBelow l n s
    → Ensures (IsBelow l n) (if joins_break old s.current then read_char s else ok s)
after_break-IsBelow n old s b =
    Ensures-if (joins_break old s.current)
      (λ h. Reads-keeps read_char-Reads n s (break_ne_zero old s.current h) b) (λ h. holds b)

pub new_line-Reads : Reads new_line
unfolding new_line
new_line-Reads l n s c b = Ensures-bind (read_char-Reads l n s c b) λ s₁ b₁.
    Ensures-bind (after_break-IsBelow n s.current s₁ b₁)
      λ s₂ b₂. holds (record { terminated = b₂.terminated; look = b₂.look; short = b₂.short })

-- A loop over characters ends by its test within as many passes as there are bytes left.
pub while_char-IsBelow :
    {l : Token} (test : ℕ → Bool) (body : Scanner → Run Scanner)
    → test 0 ≡ false
    → Reads body
    → (fuel n : ℕ) (s : Scanner) → length s.position < fuel
    → IsBelow l n s
    → Ensures (IsBelow l n) (while_char fuel test body s)
unfolding while_char
while_char-IsBelow test body stop r zero n s h b = absurd (omega arith)
while_char-IsBelow {l} test body stop r (suc fuel) n s h b = elim (Bool-cases (test s.current)) [
  | inl go ↦
      rw (go, while_char)
        (Ensures-bind
          (r l (length s.position) s (λ e. cc (ap test e, stop, go))
            (record { terminated = b.terminated; look = b.look; short = omega arith }))
          λ s₁ b₁.
            while_char-IsBelow test body stop r fuel n s₁ (omega (arith, b₁.short))
              (IsBelow-weaken n (omega (arith, b.short)) b₁))
  | inr end ↦ rw (end, while_char) (holds b)
]
