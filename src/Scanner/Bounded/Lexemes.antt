-- ===== src/Scanner/Bounded/Lexemes.antt =====
-- Lexemes of src/app/scanner.cxx: numbers, strings, identifiers and comments end inside the source.
use eokas_lang.Prelude.{
  ℕ, suc, ◌<◌, ◌≡◌, ◌≢◌, refl, Bool, true, false, ◌||◌, arith, length, ◌==◌, Run, ok, ◌>>=◌,
  Ensures, holds, Ensures-if, Ensures-bind,
}
use eokas_lang.Token.{Token}
use eokas_lang.Scanner.State.{Scanner, read_char, save_and_read_char}
use eokas_lang.Scanner.Lexeme.{
  Flow, again, finished, go_on, while_char, is_number, is_hex, is_bit, is_alpha_number_, in_line,
  scan_fraction, scan_digits, scan_number, scan_identifier, scan_line_comment,
}
use eokas_lang.Scanner.Bounded.Reads.{
  IsBelow, Reads, Reads-keeps, read_char-Reads, save_and_read_char-Reads, while_char-IsBelow,
}

-- A pass of a loop goes on in a state with `P`, or ends in one with `Q`.
abbrev pub EachFlow : (Scanner → Type 0) → (Scanner → Type 0) → Flow → Type 0
EachFlow P Q (again s) = P s
EachFlow P Q (finished s) = Q s

pub Ensures-flow :
    {P Q R : Scanner → Type 0} {m : Run Flow} {k : Scanner → Run Scanner}
    → Ensures (EachFlow P Q) m
    → ((s : Scanner) → P s → Ensures R (k s))
    → ((s : Scanner) → Q s → R s)
    → Ensures R (m >>= λ flow. elim flow [ again s ↦ k s | finished s ↦ ok s ])
Ensures-flow {P} {Q} {R} {k = k} (holds {a} h) hp hq = by_flow a h
  where
    by_flow :
        (flow : Flow)
        → EachFlow P Q flow
        → Ensures R (elim flow [ again s ↦ k s | finished s ↦ ok s ])
    by_flow (again s) h = hp s h
    by_flow (finished s) h = holds (hq s h)

pub go_on-EachFlow :
    {P Q : Scanner → Type 0} {m : Run Scanner} → Ensures P m → Ensures (EachFlow P Q) (go_on m)
go_on-EachFlow e = Ensures-bind e λ s h. holds h

pub retoken :
    {l : Token} {n : ℕ} {s : Scanner} (t : Token)
    → IsBelow l n s
    → IsBelow l n (record s { token = t })
retoken t b = record { terminated = b.terminated; look = b.look; short = b.short }

save_while-IsBelow :
    {l : Token} {n : ℕ} (test : ℕ → Bool)
    → test 0 ≡ false
    → (s : Scanner) → IsBelow l n s
    → Ensures (IsBelow l n) (while_char (suc (length s.position)) test save_and_read_char s)
save_while-IsBelow test stop s b =
    while_char-IsBelow test save_and_read_char stop save_and_read_char-Reads _ _ s (omega arith) b

-- Saving a character and then a run of others: the shape of numbers and identifiers.
save_run-IsBelow :
    {l : Token} {n : ℕ} (test : ℕ → Bool) (t : Scanner → Token)
    → test 0 ≡ false
    → {m : Run Scanner} → Ensures (IsBelow l n) m
    → Ensures (IsBelow l n) (
        m >>= λ s₁. while_char (suc (length s₁.position)) test save_and_read_char s₁ >>= λ s₂.
        ok (record s₂ { token = t s₂ }))
save_run-IsBelow test t stop e =
    Ensures-bind e
      λ s₁ b₁. Ensures-bind (save_while-IsBelow test stop s₁ b₁) λ s₂ b₂. holds (retoken (t s₂) b₂)

stops :
    (is_bit 0 ≡ false)
    × (is_hex 0 ≡ false)
    × (is_number 0 ≡ false)
    × (is_alpha_number_ 0 ≡ false)
    × (in_line 0 ≡ false)
unfolding is_bit is_hex is_number is_alpha_number_ in_line
stops = (refl, refl, refl, refl, refl)

either_ne_zero : (a b c : ℕ) → 0 < a → 0 < b → (c == a || c == b) ≡ true → c ≢ 0
either_ne_zero a b c p q h = ground arith

scan_fraction-IsBelow :
    {l : Token} {n : ℕ} (s : Scanner)
    → s.current ≢ 0
    → IsBelow l n s
    → Ensures (IsBelow l n) (scan_fraction s)
unfolding scan_fraction
scan_fraction-IsBelow {n = n} s c b =
    save_run-IsBelow is_number _ stops.2 (Reads-keeps save_and_read_char-Reads n s c b)

scan_digits-IsBelow :
    {l : Token} {n : ℕ} (s : Scanner) → IsBelow l n s → Ensures (IsBelow l n) (scan_digits s)
unfolding scan_digits
scan_digits-IsBelow {n = n} s b =
    Ensures-if (s.current == b'b' || s.current == b'B')
      (λ h. save_run-IsBelow is_bit _ stops.0 (
        Reads-keeps save_and_read_char-Reads n s
          (either_ne_zero _ _ _ (omega arith) (omega arith) h) b))
      λ _.
        Ensures-if (s.current == b'x' || s.current == b'X')
          (λ h. save_run-IsBelow is_hex _ stops.1 (
            Reads-keeps save_and_read_char-Reads n s
              (either_ne_zero _ _ _ (omega arith) (omega arith) h) b))
          λ _. Ensures-bind (save_while-IsBelow is_number stops.2 s b) λ s₁ b₁.
            Ensures-if (s₁.current == b'.')
              (λ h. scan_fraction-IsBelow _ (ground arith) (retoken _ b₁))
              (λ h. holds (retoken _ b₁))

pub scan_number-Reads : Reads scan_number
unfolding scan_number
scan_number-Reads l n s c b =
    Ensures-bind (save_and_read_char-Reads l n s c b) λ s₁ b₁. scan_digits-IsBelow s₁ b₁

pub scan_identifier-Reads : Reads scan_identifier
unfolding scan_identifier
scan_identifier-Reads l n s c b =
    save_run-IsBelow is_alpha_number_ _ stops.3 (save_and_read_char-Reads l n s c b)

pub scan_line_comment-Reads : Reads scan_line_comment
unfolding scan_line_comment
scan_line_comment-Reads l n s c b = Ensures-bind (read_char-Reads l n s c b) λ s₁ b₁.
    while_char-IsBelow in_line read_char stops.4 read_char-Reads (suc (length s₁.position)) n s₁
      (omega arith) b₁
