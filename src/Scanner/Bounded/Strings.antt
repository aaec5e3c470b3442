-- ===== src/Scanner/Bounded/Strings.antt =====
-- Strings and section comments of src/app/scanner.cxx end inside the source.
use eokas_lang.Prelude.{
  ℕ, zero, suc, ◌<◌, ◌≡◌, ◌≢◌, true, ◌||◌, arith, Bool-cases, inl, inr, length, ◌==◌, Run, Ensures,
  holds, Ensures-if, Ensures-bind, Ensures-map,
}
use eokas_lang.Token.{Token}
use eokas_lang.Scanner.State.{Scanner, save_char, save_and_read_char}
use eokas_lang.Scanner.Lexeme.{
  Flow, again, finished, go_on, is_hex, save_escape, scan_hex_escape, scan_escape, scan_string_char,
  scan_string_loop, scan_string, close_section, scan_section_char, scan_section_loop,
  scan_section_comment,
}
use eokas_lang.Scanner.Bounded.Reads.{
  IsBelow, IsBelow-weaken, Reads, Reads-keeps, read_char-Reads, save_and_read_char-Reads,
  new_line-Reads,
}
use eokas_lang.Scanner.Bounded.Lexemes.{EachFlow, Ensures-flow, go_on-EachFlow, retoken}

-- A pass that keeps the bound, and one that uses up a byte if it goes on.
abbrev Stays : Token → ℕ → Run Flow → Type 0
Stays l n m = Ensures (EachFlow (IsBelow l n) (IsBelow l n)) m

abbrev Passes : Token → ℕ → Run Flow → Type 0
Passes l n m = Ensures (EachFlow (IsBelow l n) (IsBelow l (suc n))) m

Passes-of_Stays : {l : Token} {n : ℕ} {m : Run Flow} → Stays l n m → Passes l n m
Passes-of_Stays {l} {n} e = Ensures-map e λ flow h. weaken flow h
  where
    weaken :
        (flow : Flow)
        → EachFlow (IsBelow l n) (IsBelow l n) flow
        → EachFlow (IsBelow l n) (IsBelow l (suc n)) flow
    weaken (again s) h = h
    weaken (finished s) h = IsBelow-weaken (suc n) (omega arith) h

hex_ne_zero : (c : ℕ) → is_hex c ≡ true → c ≢ 0
unfolding is_hex
hex_ne_zero c h = ground arith

is_ne_zero : (k c : ℕ) → 0 < k → (c == k) ≡ true → c ≢ 0
is_ne_zero k c p h = ground arith

quoted_ne_zero : (c : ℕ) → (c == b'\\' || c == b'\'' || c == b'"') ≡ true → c ≢ 0
quoted_ne_zero c h = ground arith

module _ {l : Token} {n : ℕ} where
  save_escape-Stays :
      (c k : ℕ) (s : Scanner)
      → 0 < k
      → (s.current == k) ≡ true
      → IsBelow l n s
      → Stays l n (go_on (save_escape c s))
  unfolding save_escape
  save_escape-Stays c k s p h b =
      go_on-EachFlow
        (Reads-keeps read_char-Reads n (save_char c s) (is_ne_zero k s.current p h) (retoken _ b))

  save-Stays :
      (s : Scanner) → s.current ≢ 0 → IsBelow l n s → Stays l n (go_on (save_and_read_char s))
  save-Stays s h b = go_on-EachFlow (Reads-keeps save_and_read_char-Reads n s h b)

  scan_hex_escape-Stays : (s : Scanner) → IsBelow l n s → Stays l n (scan_hex_escape s)
  unfolding scan_hex_escape
  scan_hex_escape-Stays s b =
      Ensures-if (is_hex s.current)
        (λ h.
          Ensures-bind (Reads-keeps save_and_read_char-Reads n s (hex_ne_zero s.current h) b)
            λ s₁ b₁.
              Ensures-if (is_hex s₁.current) (λ h₁. save-Stays s₁ (hex_ne_zero s₁.current h₁) b₁)
                (λ _. holds (retoken _ b₁)))
        (λ _. holds (retoken _ b))

  scan_escape-Stays : (s : Scanner) → IsBelow l n s → Stays l n (scan_escape s)
  unfolding scan_escape
  scan_escape-Stays s b =
      Ensures-if (s.current == b'a') (λ h. save_escape-Stays 7 b'a' s (omega arith) h b)
        λ _.
          Ensures-if (s.current == b'b') (λ h. save_escape-Stays 8 b'b' s (omega arith) h b)
            λ _.
              Ensures-if (s.current == b'f') (λ h. save_escape-Stays 12 b'f' s (omega arith) h b)
                λ _.
                  Ensures-if (s.current == b'n')
                    (λ h. save_escape-Stays 10 b'n' s (omega arith) h b)
                    λ _.
                      Ensures-if (s.current == b'r')
                        (λ h. save_escape-Stays 13 b'r' s (omega arith) h b)
                        λ _.
                          Ensures-if (s.current == b't')
                            (λ h. save_escape-Stays 9 b't' s (omega arith) h b)
                            λ _.
                              Ensures-if (s.current == b'v')
                                (λ h. save_escape-Stays 11 b'v' s (omega arith) h b)
                                λ _.
                                  Ensures-if (s.current == b'x')
                                    (λ h.
                                      Ensures-bind
                                        (Reads-keeps read_char-Reads n s
                                          (is_ne_zero b'x' s.current (omega arith) h) b)
                                        λ s₁ b₁. scan_hex_escape-Stays s₁ b₁)
                                    λ _.
                                      Ensures-if
                                        (s.current == b'\\'
                                          || s.current == b'\''
                                          || s.current == b'"')
                                        (λ h. save-Stays s (quoted_ne_zero s.current h) b)
                                        (λ _. holds (retoken _ b))

  scan_string_char-Passes : (s : Scanner) → IsBelow l (suc n) s → Passes l n (scan_string_char s)
  unfolding scan_string_char
  scan_string_char-Passes s b =
      Ensures-if (s.current == 0) (λ _. holds (retoken _ b))
        λ z.
          Ensures-if (s.current == b'\n' || s.current == b'\r') (λ _. holds (retoken _ b))
            λ _.
              Ensures-if (s.current == b'\\')
                (λ h.
                  Ensures-bind
                    (read_char-Reads l n s (is_ne_zero b'\\' s.current (omega arith) h) b)
                    λ s₁ b₁. Passes-of_Stays (scan_escape-Stays s₁ b₁))
                (λ _. go_on-EachFlow (save_and_read_char-Reads l n s (ground arith) b))

  close_section-Passes :
      (s : Scanner) → s.current ≢ 0 → IsBelow l (suc n) s → Passes l n (close_section s)
  unfolding close_section
  close_section-Passes s c b = Passes-of_Stays (
      Ensures-bind (read_char-Reads l n s c b) λ s₁ b₁.
        Ensures-if (s₁.current == b'/')
          (λ h.
            Ensures-bind
              (Reads-keeps read_char-Reads n s₁ (is_ne_zero b'/' s₁.current (omega arith) h) b₁)
              λ s₂ b₂. holds b₂)
          (λ _. holds b₁))

  scan_section_char-Passes : (s : Scanner) → IsBelow l (suc n) s → Passes l n (scan_section_char s)
  unfolding scan_section_char
  scan_section_char-Passes s b =
      Ensures-if (s.current == 0) (λ _. holds (retoken _ b))
        λ z.
          let c : s.current ≢ 0 = ground arith in
          Ensures-if (s.current == b'\n' || s.current == b'\r')
            (λ _. go_on-EachFlow (new_line-Reads l n s c b))
            λ _.
              Ensures-if (s.current == b'*') (λ _. close_section-Passes s c b)
                (λ _. go_on-EachFlow (read_char-Reads l n s c b))

-- The state as it stands has its own number of bytes left.
pub IsBelow-self :
    {l : Token} {n : ℕ} {s : Scanner} → IsBelow l n s → IsBelow l (suc (length s.position)) s
IsBelow-self b = record { terminated = b.terminated; look = b.look; short = omega arith }

scan_string_loop-IsBelow :
    {l : Token} (fuel n delimiter : ℕ) (s : Scanner)
    → delimiter ≢ 0
    → length s.position < fuel
    → IsBelow l n s
    → Ensures (IsBelow l n) (scan_string_loop fuel delimiter s)
unfolding scan_string_loop
scan_string_loop-IsBelow zero n d s z h b = absurd (omega arith)
scan_string_loop-IsBelow (suc fuel) n d s z h b = elim (Bool-cases (s.current == d)) [
  | inl end ↦
      rw (end, scan_string_loop)
        (Ensures-bind (Reads-keeps read_char-Reads n s (ground arith) b)
          λ s₁ b₁. holds (retoken _ b₁))
  | inr more ↦
      rw (more, scan_string_loop)
        (Ensures-flow (scan_string_char-Passes {n = length s.position} s (IsBelow-self b))
          (λ s₁ b₁.
            scan_string_loop-IsBelow fuel n d s₁ z (omega (arith, b₁.short))
              (IsBelow-weaken n (omega (arith, b.short)) b₁))
          (λ s₁ b₁. IsBelow-weaken n (omega (arith, b.short)) b₁))
]

pub scan_string-Reads : (delimiter : ℕ) → delimiter ≢ 0 → Reads (scan_string delimiter)
unfolding scan_string
scan_string-Reads d z l n s c b =
    Ensures-bind (read_char-Reads l n s c b)
      λ s₁ b₁. scan_string_loop-IsBelow (suc (length s₁.position)) n d s₁ z (omega arith) b₁

scan_section_loop-IsBelow :
    {l : Token} (fuel n : ℕ) (s : Scanner)
    → length s.position < fuel
    → IsBelow l n s
    → Ensures (IsBelow l n) (scan_section_loop fuel s)
unfolding scan_section_loop
scan_section_loop-IsBelow zero n s h b = absurd (omega arith)
scan_section_loop-IsBelow (suc fuel) n s h b =
    Ensures-flow (scan_section_char-Passes {n = length s.position} s (IsBelow-self b))
      (λ s₁ b₁.
        scan_section_loop-IsBelow fuel n s₁ (omega (arith, b₁.short))
          (IsBelow-weaken n (omega (arith, b.short)) b₁))
      (λ s₁ b₁. IsBelow-weaken n (omega (arith, b.short)) b₁)

pub scan_section_comment-Reads : Reads scan_section_comment
unfolding scan_section_comment
scan_section_comment-Reads l n s c b =
    Ensures-bind (read_char-Reads l n s c b)
      λ s₁ b₁. scan_section_loop-IsBelow (suc (length s₁.position)) n s₁ (omega arith) b₁
