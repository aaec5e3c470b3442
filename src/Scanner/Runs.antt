-- ===== src/Scanner/Runs.antt =====
-- The loops of src/app/scanner.cxx that save a run of characters, and the cases of `scan` for letters
-- and digits.
use mathlib.Core.List.{append_assoc, append-nil}
use eokas_lang.Prelude.{
  ℕ, zero, suc, ◌+◌, ◌<◌, ◌≡◌, refl, ap, ◌∙◌, Bool, true, false, [], ◌∷◌, ◌++◌, arith, Bytes,
  length, length-append, ok, ◌>>=◌, ◌==◌, Bool-cases, inl, inr,
}
use eokas_lang.Token.{TokenType, Token, empty_token}
use eokas_lang.Scanner.Scan.{finish, scan_char, scan_default, scan_loop}
use eokas_lang.Scanner.State.{Scanner, save_and_read_char}
use eokas_lang.Scanner.Lexeme.{Flow, while_char, is_number, is_alpha_, scan_number}
use eokas_lang.Scanner.Strings.{ahead, saved, not_empty, eq_of_test}

-- Each byte passes the test.
abbrev pub IsRun : (ℕ → Bool) → Bytes → Type 0
IsRun test [] = Unit
IsRun test (c ∷ cs) = (test c ≡ true) × IsRun test cs

-- `w` saved, at column `k`.
abbrev pub saved_run : Bytes → ℕ → Scanner → Scanner
saved_run w k s = record s {
  token = record { type = s.token.type; value = s.token.value ++ w };
  column = k;
}

pub while_char-step :
    (fuel c x : ℕ) (ys : Bytes) (test : ℕ → Bool) (s : Scanner)
    → test c ≡ true
    → while_char (suc fuel) test save_and_read_char (ahead (c ∷ x ∷ ys) s)
      ≡ while_char fuel test save_and_read_char (ahead (x ∷ ys) (saved c (s.column + 1) s))
unfolding while_char save_and_read_char
while_char-step fuel c x ys test s h = rw (h, while_char) refl

pub while_char-stop :
    (fuel : ℕ) (test : ℕ → Bool) (s : Scanner)
    → test s.current ≡ false
    → while_char (suc fuel) test save_and_read_char s ≡ ok s
unfolding while_char
while_char-stop fuel test s h = rw (h, while_char) refl

pub while_char-run :
    (w : Bytes) (fuel d : ℕ) (rest : Bytes) (test : ℕ → Bool) (s : Scanner)
    → length w < fuel
    → IsRun test w
    → test d ≡ false
    → (k : ℕ) × (while_char fuel test save_and_read_char (ahead (w ++ (d ∷ rest)) s)
        ≡ ok (ahead (d ∷ rest) (saved_run w k s)))
while_char-run w zero d rest test s h r e = absurd (omega arith)
while_char-run [] (suc fuel) d rest test s h r e =
    (s.column, while_char-stop fuel test (ahead (d ∷ rest) s) e ∙ (rw append-nil refl))
while_char-run (c ∷ cs) (suc fuel) d rest test s h r e =
    let (x, ys, q) = not_empty cs d rest in
    let (k, ih) =
      while_char-run cs fuel d rest test (saved c (s.column + 1) s) (omega arith) r.1 e in
    let same = λ (w : Bytes). ok (
      ahead (d ∷ rest)
        (record s { token = record { type = s.token.type; value = w }; column = k })) in
    (
      k,
      ap (λ t. while_char (suc fuel) test save_and_read_char (ahead (c ∷ t) s)) q
          ∙ while_char-step fuel c x ys test s r.0
          ∙ (rw q at ih)
          ∙ ap same (append_assoc s.token.value (c ∷ []) cs),
    )

-- The scanner at `c`, in front of a text, with an empty token.
abbrev pub at_char : ℕ → Bytes → Scanner → Scanner
at_char c p s = record s { token = empty_token; current = c; position = p }

pub save-ahead :
    (c : ℕ) (cs : Bytes) (d : ℕ) (rest : Bytes) (s : Scanner)
    → save_and_read_char (at_char c (cs ++ (d ∷ rest)) s)
      ≡ ok (
          ahead (cs ++ (d ∷ rest)) (record s {
            token = record { type = TokenType.unknown; value = c ∷ [] };
            column = s.column + 1;
          }))
unfolding save_and_read_char
save-ahead c [] d rest s = refl
save-ahead c (x ∷ cs) d rest s = refl

pub differs : (test : ℕ → Bool) (c k : ℕ) → test c ≡ true → test k ≡ false → (c == k) ≡ false
differs test c k h e = elim (Bool-cases (c == k)) [
  | inl q ↦ absurd (cc (h, e, eq_of_test c k q))
  | inr r ↦ r
]

pub alpha-number : (c : ℕ) → is_alpha_ c ≡ true → is_number c ≡ false
unfolding is_alpha_ is_number
alpha-number c h = ground arith

pub scan_char-alpha : (s : Scanner) → is_alpha_ s.current ≡ true → scan_char s ≡ scan_default s
unfolding scan_char is_alpha_
scan_char-alpha s h =
    let n = λ (k : ℕ) (e : is_alpha_ k ≡ false). differs is_alpha_ s.current k h e in
    rw
      (
        scan_char,
        n 0 refl,
        n b'\n' refl,
        n b'\r' refl,
        n b' ' refl,
        n 12 refl,
        n b'\t' refl,
        n 11 refl,
        n b'/' refl,
        n b'&' refl,
        n b'|' refl,
        n b'=' refl,
        n b'<' refl,
        n b'>' refl,
        n b'!' refl,
        n b'.' refl,
        alpha-number s.current h,
        n b'"' refl,
        n b'\'' refl,
      )
      refl

pub scan_char-number :
    (s : Scanner) → is_number s.current ≡ true → scan_char s ≡ finish (scan_number s)
unfolding scan_char is_number
scan_char-number s h =
    let n = λ (k : ℕ) (e : is_number k ≡ false). differs is_number s.current k h e in
    rw
      (
        scan_char,
        n 0 refl,
        n b'\n' refl,
        n b'\r' refl,
        n b' ' refl,
        n 12 refl,
        n b'\t' refl,
        n 11 refl,
        n b'/' refl,
        n b'&' refl,
        n b'|' refl,
        n b'=' refl,
        n b'<' refl,
        n b'>' refl,
        n b'!' refl,
        n b'.' refl,
        h,
      )
      refl

pub ahead-length :
    (cs : Bytes) (d : ℕ) (rest : Bytes) (s : Scanner)
    → length cs < suc (length (ahead (cs ++ (d ∷ rest)) s).position)
ahead-length [] d rest s = omega arith
ahead-length (c ∷ cs) d rest s = omega (arith, length-append cs (d ∷ rest))

-- The text of a lexeme, before it has a type.
abbrev pub word : ℕ → Bytes → Token
word c cs = record { type = TokenType.unknown; value = c ∷ cs }

pub scan_loop-finished :
    (fuel : ℕ) (s t : Scanner) → scan_char s ≡ ok (Flow.finished t) → scan_loop (suc fuel) s ≡ ok t
unfolding scan_loop
scan_loop-finished fuel s t e = rw (e, ◌>>=◌) refl
