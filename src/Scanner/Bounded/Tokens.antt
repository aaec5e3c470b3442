-- ===== src/Scanner/Bounded/Tokens.antt =====
-- `scan`, `next_token` and `ready` of src/app/scanner.cxx on a source that ends with its terminator.
use eokas_lang.Prelude.{
  ℕ, zero, suc, ◌<◌, ◌≡◌, ◌≢◌, refl, true, false, ◌||◌, [], ◌∷◌, ◌++◌, arith, length, length-append,
  ◌==◌, Bytes, Run, ok, Ensures, holds, Ensures-if, Ensures-bind,
}
use eokas_lang.Token.{TokenType, Token, same_type, empty_token}
use eokas_lang.Scanner.State.{Scanner, ready}
use eokas_lang.Scanner.Lexeme.{Flow, finished, is_number, is_alpha_}
use eokas_lang.Scanner.Scan.{
  finish, take_as, scan_slash, scan_pair, scan_three, scan_dots, scan_default, scan_char, scan_loop,
  scan, next_token,
}
use eokas_lang.Scanner.Bounded.Reads.{
  Terminated, IsBelow, IsBelow-weaken, Reads-keeps, read_char-Reads, save_and_read_char-Reads,
  new_line-Reads,
}
use eokas_lang.Scanner.Bounded.Lexemes.{
  EachFlow, Ensures-flow, go_on-EachFlow, retoken, scan_number-Reads, scan_identifier-Reads,
  scan_line_comment-Reads,
}
use eokas_lang.Scanner.Bounded.Strings.{IsBelow-self, scan_string-Reads, scan_section_comment-Reads}

-- What a scan from a state with at most `n` bytes to read leaves: fewer bytes, unless its token is
-- the end of the source.
pub record IsScanned (l : Token) (n : ℕ) (s : Scanner) : Type 0 where
  pub below : IsBelow l (suc n) s
  pub uses : same_type s.token.type TokenType.eos ≡ false → length s.position < n

IsScanned-below : {l : Token} {n : ℕ} {s : Scanner} → IsBelow l n s → IsScanned l n s
IsScanned-below {n = n} b = record {
  below = IsBelow-weaken (suc n) (omega arith) b;
  uses = λ _. b.short;
}

-- A pass of the loop of `scan`.
abbrev Passes : Token → ℕ → Run Flow → Type 0
Passes l n m = Ensures (EachFlow (IsBelow l n) (IsScanned l n)) m

finish-Passes :
    {l : Token} {n : ℕ} {m : Run Scanner} → Ensures (IsBelow l n) m → Passes l n (finish m)
finish-Passes e = Ensures-bind e λ s b. holds (IsScanned-below b)

leave-Passes :
    {l : Token} {n : ℕ} {s : Scanner} (t : Token)
    → IsBelow l n s
    → Passes l n (ok (finished (record s { token = t })))
leave-Passes t b = holds (IsScanned-below (retoken t b))

is_ne_zero : (k c : ℕ) → 0 < k → (c == k) ≡ true → c ≢ 0
is_ne_zero k c p h = ground arith

module _ {l : Token} {n : ℕ} where
  -- A second character of an operator.
  take_as-Passes :
      (t : TokenType) (k : ℕ) (s : Scanner)
      → 0 < k
      → (s.current == k) ≡ true
      → IsBelow l n s
      → Passes l n (take_as t s)
  unfolding take_as
  take_as-Passes t k s p h b =
      Ensures-bind (Reads-keeps save_and_read_char-Reads n s (is_ne_zero k s.current p h) b)
        λ s₁ b₁. leave-Passes _ b₁

  scan_slash-Passes :
      (s : Scanner) → s.current ≢ 0 → IsBelow l (suc n) s → Passes l n (scan_slash s)
  unfolding scan_slash
  scan_slash-Passes s c b = Ensures-bind (read_char-Reads l n s c b) λ s₁ b₁.
      Ensures-if (s₁.current == b'/')
        (λ h. go_on-EachFlow (
          Reads-keeps scan_line_comment-Reads n s₁ (is_ne_zero b'/' s₁.current (omega arith) h) b₁))
        λ _.
          Ensures-if (s₁.current == b'*')
            (λ h. go_on-EachFlow (
              Reads-keeps scan_section_comment-Reads n s₁
                (is_ne_zero b'*' s₁.current (omega arith) h) b₁))
            (λ _. leave-Passes _ b₁)

  scan_pair-Passes :
      (second : ℕ) (two one : TokenType) (s : Scanner)
      → 0 < second
      → s.current ≢ 0
      → IsBelow l (suc n) s
      → Passes l n (scan_pair second two one s)
  unfolding scan_pair
  scan_pair-Passes second two one s p c b =
      Ensures-bind (save_and_read_char-Reads l n s c b) λ s₁ b₁.
        Ensures-if (s₁.current == second) (λ h. take_as-Passes two second s₁ p h b₁)
          (λ _. leave-Passes _ b₁)

  scan_three-Passes :
      (j : ℕ) (t : TokenType) (k : ℕ) (u one : TokenType) (s : Scanner)
      → 0 < j
      → 0 < k
      → s.current ≢ 0
      → IsBelow l (suc n) s
      → Passes l n (scan_three j t k u one s)
  unfolding scan_three
  scan_three-Passes j t k u one s p q c b =
      Ensures-bind (save_and_read_char-Reads l n s c b) λ s₁ b₁.
        Ensures-if (s₁.current == j) (λ h. take_as-Passes t j s₁ p h b₁)
          λ _.
            Ensures-if (s₁.current == k) (λ h. take_as-Passes u k s₁ q h b₁)
              (λ _. leave-Passes _ b₁)

  scan_dots-Passes : (s : Scanner) → s.current ≢ 0 → IsBelow l (suc n) s → Passes l n (scan_dots s)
  unfolding scan_dots
  scan_dots-Passes s c b = Ensures-bind (save_and_read_char-Reads l n s c b) λ s₁ b₁.
      Ensures-if (s₁.current == b'.')
        (λ h.
          Ensures-bind
            (Reads-keeps save_and_read_char-Reads n s₁ (is_ne_zero b'.' s₁.current (omega arith) h)
              b₁)
            λ s₂ b₂.
              Ensures-if (s₂.current == b'.')
                (λ h₂. take_as-Passes TokenType.dot3 b'.' s₂ (omega arith) h₂ b₂)
                (λ _. leave-Passes _ b₂))
        (λ _. leave-Passes _ b₁)

  scan_default-Passes :
      (s : Scanner) → s.current ≢ 0 → IsBelow l (suc n) s → Passes l n (scan_default s)
  unfolding scan_default
  scan_default-Passes s c b =
      Ensures-if (is_alpha_ s.current) (λ _. finish-Passes (scan_identifier-Reads l n s c b))
        λ _. Ensures-bind (save_and_read_char-Reads l n s c b) λ s₁ b₁. leave-Passes _ b₁

  scan_char-Passes : (s : Scanner) → IsBelow l (suc n) s → Passes l n (scan_char s)
  unfolding scan_char
  scan_char-Passes s b =
      Ensures-if (s.current == 0) (λ _. holds (record { below = retoken _ b; uses = λ e. cc }))
        λ z.
          let c : s.current ≢ 0 = ground arith in
          Ensures-if (s.current == b'\n' || s.current == b'\r')
            (λ _. go_on-EachFlow (new_line-Reads l n s c b))
            λ _.
              Ensures-if
                (s.current == b' ' || s.current == 12 || s.current == b'\t' || s.current == 11)
                (λ _. go_on-EachFlow (read_char-Reads l n s c b))
                λ _.
                  Ensures-if (s.current == b'/') (λ _. scan_slash-Passes s c b)
                    λ _.
                      Ensures-if (s.current == b'&')
                        (λ _. scan_pair-Passes b'&' _ _ s (omega arith) c b)
                        λ _.
                          Ensures-if (s.current == b'|')
                            (λ _.
                              scan_three-Passes b'|' _ b'<' _ _ s (omega arith) (omega arith) c b)
                            λ _.
                              Ensures-if (s.current == b'=')
                                (λ _. scan_pair-Passes b'=' _ _ s (omega arith) c b)
                                λ _.
                                  Ensures-if (s.current == b'<')
                                    (λ _. scan_pair-Passes b'=' _ _ s (omega arith) c b)
                                    λ _.
                                      Ensures-if (s.current == b'>')
                                        (λ _.
                                          scan_three-Passes b'|' _ b'=' _ _ s (omega arith)
                                            (omega arith) c b)
                                        λ _.
                                          Ensures-if (s.current == b'!')
                                            (λ _. scan_pair-Passes b'=' _ _ s (omega arith) c b)
                                            λ _.
                                              Ensures-if (s.current == b'.')
                                                (λ _. scan_dots-Passes s c b)
                                                λ _.
                                                  Ensures-if (is_number s.current)
                                                    (λ _.
                                                      finish-Passes (scan_number-Reads l n s c b))
                                                    λ _.
                                                      Ensures-if
                                                        (s.current == b'"' || s.current == b'\'')
                                                        (λ _.
                                                          finish-Passes (
                                                            scan_string-Reads s.current c l n s c
                                                            b))
                                                        (λ _. scan_default-Passes s c b)

-- With as much fuel as there are bytes left, and one unit more, the loop ends.
scan_loop-IsScanned :
    {l : Token} (fuel n : ℕ) (s : Scanner)
    → length s.position < fuel
    → IsBelow l (suc n) s
    → Ensures (IsScanned l n) (scan_loop fuel s)
unfolding scan_loop
scan_loop-IsScanned zero n s h b = absurd (omega arith)
scan_loop-IsScanned {l} (suc fuel) n s h b =
    Ensures-flow (scan_char-Passes {n = length s.position} s (IsBelow-self b))
      (λ s₁ b₁.
        scan_loop-IsScanned fuel n s₁ (omega (arith, b₁.short))
          (IsBelow-weaken (suc n) (omega (arith, b.short)) b₁))
      (λ s₁ t. record {
        below = IsBelow-weaken (suc n) (omega (arith, b.short)) t.below;
        uses = λ e. omega (arith, t.uses e, b.short);
      })

-- A scan stops inside the source, and uses up a byte unless it reports the end of the source.
pub scan-IsScanned :
    {l : Token} (n : ℕ) (s : Scanner) → IsBelow l (suc n) s → Ensures (IsScanned l n) (scan s)
unfolding scan
scan-IsScanned n s b =
    scan_loop-IsScanned (suc (length s.position)) n _ (omega arith) (retoken empty_token b)

-- In a terminated source with no look-ahead token pending, `next_token` stops inside the source,
-- leaves none pending, and uses up a byte unless it reports the end of the source.
pub next_token-IsScanned :
    (n : ℕ) (s : Scanner)
    → IsBelow empty_token (suc n) s
    → Ensures (IsScanned empty_token n) (next_token s)
unfolding next_token
next_token-IsScanned n s b =
    Ensures-if (same_type s.look_ahead.type TokenType.unknown) (λ _. scan-IsScanned n s b)
      (λ h. cc (b.look, h))

-- The bytes of a C string: no zero among them.
abbrev pub IsText : Bytes → Type 0
IsText [] = Unit
IsText (c ∷ cs) = (c ≢ 0) × IsText cs

Terminated-text : (c : ℕ) (cs : Bytes) → c ≢ 0 → IsText cs → Terminated c (cs ++ (0 ∷ []))
Terminated-text c [] h t = (h, refl)
Terminated-text c (d ∷ ds) h t = (h, Terminated-text d ds t.0 t.1)

-- `ready` on a C string reads its first byte.
pub ready-IsBelow :
    (text : Bytes)
    → IsText text
    → Ensures (IsBelow empty_token (suc (length text))) (ready (text ++ (0 ∷ [])))
unfolding ready
ready-IsBelow [] t = holds (record { terminated = refl; look = refl; short = omega arith })
ready-IsBelow (c ∷ cs) t = holds (record {
  terminated = Terminated-text c cs t.0 t.1;
  look = refl;
  short = omega (arith, length-append cs (0 ∷ []));
})
