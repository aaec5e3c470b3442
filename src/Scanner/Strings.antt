-- ===== src/Scanner/Strings.antt =====
-- String literals of src/app/scanner.cxx: `scan_string` reads back what is escaped.
use mathlib.Core.Path.{subst}
use mathlib.Core.List.{append_assoc, append-nil}
use eokas_lang.Prelude.{
  ℕ, zero, suc, ◌+◌, ◌<◌, ◌≤◌, ◌≡◌, ◌≢◌, refl, ap, ◌∙◌, Bool, true, false, ◌||◌, ◌==◌,
  if◌then◌else◌, [], ◌∷◌, ◌++◌, arith, Bool-cases, inl, inr, Bytes, length, length-append, ok,
}
use eokas_lang.Token.{TokenType}
use eokas_lang.Scanner.State.{Scanner}
use eokas_lang.Scanner.Lexeme.{again, scan_string_char, scan_string_loop, scan_string}
use eokas_lang.Scanner.Bounded.Tokens.{IsText}

-- A way to write a byte inside double quotes.
unfoldable pub escape_char : ℕ → Bytes
escape_char c =
    if c == b'"' || c == b'\\'
    then b'\\' ∷ c ∷ []
    else if c == b'\n'
    then b'\\' ∷ b'n' ∷ []
    else if c == b'\r'
    then b'\\' ∷ b'r' ∷ []
    else c ∷ []

unfoldable pub escape : Bytes → Bytes
escape [] = []
escape (c ∷ cs) = escape_char c ++ escape cs

-- The scanner in front of a text.
abbrev pub ahead : Bytes → Scanner → Scanner
ahead [] s = s
ahead (c ∷ p) s = record s { current = c; position = p }

-- `c` saved, at column `k`.
abbrev pub saved : ℕ → ℕ → Scanner → Scanner
saved c k s = record s {
  token = record { type = s.token.type; value = s.token.value ++ (c ∷ []) };
  column = k;
}

-- A pass of the loop over `text` reads `c`, and stops in front of `x` and `ys`.
abbrev PassesTo : Bytes → ℕ → ℕ → Bytes → Scanner → Type 0
PassesTo text c x ys s =
    (k : ℕ) × (scan_string_char (ahead text s) ≡ ok (again (ahead (x ∷ ys) (saved c k s))))

module _ (c x : ℕ) (ys : Bytes) (s : Scanner) where
  plain_pass :
      c ≢ 0
      → (c == b'\n' || c == b'\r') ≡ false
      → (c == b'\\') ≡ false
      → PassesTo (c ∷ x ∷ ys) c x ys s
  unfolding scan_string_char
  plain_pass a b d = (s.column + 1, ground arith)

  quoted_pass : (c == b'"' || c == b'\\') ≡ true → PassesTo (b'\\' ∷ c ∷ x ∷ ys) c x ys s
  unfolding scan_string_char
  quoted_pass h = (s.column + 1 + 1, ground arith)

newline_pass : (x : ℕ) (ys : Bytes) (s : Scanner) → PassesTo (b'\\' ∷ b'n' ∷ x ∷ ys) b'\n' x ys s
unfolding scan_string_char
newline_pass x ys s = (s.column + 1 + 1, refl)

return_pass : (x : ℕ) (ys : Bytes) (s : Scanner) → PassesTo (b'\\' ∷ b'r' ∷ x ∷ ys) b'\r' x ys s
unfolding scan_string_char
return_pass x ys s = (s.column + 1 + 1, refl)

pub eq_of_test : (c k : ℕ) → (c == k) ≡ true → k ≡ c
eq_of_test c k h = ground arith

neither : (a b : Bool) → a ≡ false → b ≡ false → (a || b) ≡ false
neither a b h k = ground arith

-- One escaped byte is one pass of the loop.
escape_char-pass :
    (c x : ℕ) (ys : Bytes) (s : Scanner) → c ≢ 0 → PassesTo (escape_char c ++ (x ∷ ys)) c x ys s
unfolding escape_char
escape_char-pass c x ys s a = elim (Bool-cases (c == b'"' || c == b'\\')) [
  | inl q ↦ rw q (quoted_pass c x ys s q)
  | inr r ↦ rw r (elim (Bool-cases (c == b'\n')) [
    | inl n ↦ rw n (
        subst (λ k. PassesTo (b'\\' ∷ b'n' ∷ x ∷ ys) k x ys s) (eq_of_test c b'\n' n)
          (newline_pass x ys s))
    | inr m ↦ rw m (elim (Bool-cases (c == b'\r')) [
      | inl n ↦ rw n (
          subst (λ k. PassesTo (b'\\' ∷ b'r' ∷ x ∷ ys) k x ys s) (eq_of_test c b'\r' n)
            (return_pass x ys s))
      | inr k ↦ rw k (plain_pass c x ys s a (neither _ _ m k) (ground arith))
    ])
  ])
]

-- An escaped byte does not begin with the closing quote.
escape_char-open :
    (c : ℕ) (rest : Bytes) (s : Scanner)
    → ((ahead (escape_char c ++ rest) s).current == b'"') ≡ false
unfolding escape_char
escape_char-open c rest s = ground arith

pub not_empty :
    (v : Bytes) (d : ℕ) (rest : Bytes) → (x : ℕ) × (ys : Bytes) × (v ++ (d ∷ rest) ≡ x ∷ ys)
not_empty [] d rest = (d, rest, refl)
not_empty (c ∷ cs) d rest = (c, cs ++ (d ∷ rest), refl)

loop_pass :
    (fuel d : ℕ) (s s' : Scanner)
    → (s.current == d) ≡ false
    → scan_string_char s ≡ ok (again s')
    → scan_string_loop (suc fuel) d s ≡ scan_string_loop fuel d s'
unfolding scan_string_loop
loop_pass fuel d s s' h e = rw (h, scan_string_loop) (rw e)

-- The state behind a string.
abbrev pub read_string : Bytes → ℕ → Scanner → Scanner
read_string v k s = record s {
  token = record { type = TokenType.string; value = s.token.value ++ v };
  column = k;
}

scan_string_loop-escape :
    (v : Bytes) (fuel d : ℕ) (rest : Bytes) (s : Scanner)
    → length v < fuel
    → IsText v
    → (k : ℕ) × (scan_string_loop fuel b'"' (ahead (escape v ++ (b'"' ∷ d ∷ rest)) s)
        ≡ ok (ahead (d ∷ rest) (read_string v k s)))
unfolding escape
scan_string_loop-escape v zero d rest s h t = absurd (omega arith)
scan_string_loop-escape [] (suc fuel) d rest s h t =
    (s.column + 1, unfold scan_string_loop in rw append-nil)
scan_string_loop-escape (c ∷ cs) (suc fuel) d rest s h t =
    let (x, ys, e) = not_empty (escape cs) b'"' (d ∷ rest) in
    let (k, pass) = escape_char-pass c x ys s t.0 in
    let (j, ih) = scan_string_loop-escape cs fuel d rest (saved c k s) (omega arith) t.1 in
    let text =
      append_assoc (escape_char c) (escape cs) (b'"' ∷ d ∷ rest) ∙ ap (λ t. escape_char c ++ t) e in
    let same = λ (w : Bytes). ok (
      ahead (d ∷ rest)
        (record s { token = record { type = TokenType.string; value = w }; column = j })) in
    (
      j,
      ap (λ t. scan_string_loop (suc fuel) b'"' (ahead t s)) text
          ∙ loop_pass fuel b'"' _ _ (escape_char-open c (x ∷ ys) s) pass
          ∙ (rw e at ih)
          ∙ ap same (append_assoc s.token.value (c ∷ []) cs),
    )

escape_char-length : (c : ℕ) → 0 < length (escape_char c)
unfolding escape_char
escape_char-length c = ground arith

escape-length : (v : Bytes) → length v ≤ length (escape v)
unfolding escape
escape-length [] = omega arith
escape-length (c ∷ cs) =
    omega (arith, escape_char-length c, escape-length cs, length-append (escape_char c) (escape cs))

-- A text without zero bytes, escaped and put in double quotes, is scanned as a string token whose
-- value is the text, and the scanner stops behind the closing quote.
pub scan_string-escape :
    (v : Bytes) (d : ℕ) (rest : Bytes) (s : Scanner)
    → IsText v
    → (k : ℕ) × (scan_string b'"' (record s { position = escape v ++ (b'"' ∷ d ∷ rest) })
        ≡ ok (ahead (d ∷ rest) (read_string v k s)))
unfolding scan_string
scan_string-escape v d rest s t =
    let (x, ys, e) = not_empty (escape v) b'"' (d ∷ rest) in
    let enough : length v < suc (length ys) =
      omega (arith, ap length e, escape-length v, length-append (escape v) (b'"' ∷ d ∷ rest)) in
    let (k, read) =
      scan_string_loop-escape v (suc (length ys)) d rest (record s { column = s.column + 1 }) enough
        t in
    (k, ap (λ t. scan_string b'"' (record s { position = t })) e ∙ (rw e at read))
