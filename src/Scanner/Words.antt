-- ===== src/Scanner/Words.antt =====
-- Identifiers and decimal numbers of src/app/scanner.cxx.
use eokas_lang.Prelude.{
  ℕ, suc, ◌+◌, ◌≡◌, refl, ◌∙◌, Bool, true, false, [], ◌∷◌, ◌++◌, arith, Bytes, length, ok, ◌>>=◌,
  ◌==◌, Bool-cases, inl, inr,
}
use eokas_lang.Token.{TokenType, infer}
use eokas_lang.Scanner.Scan.{scan_default, scan}
use eokas_lang.Scanner.State.{Scanner, save_and_read_char, set_type}
use eokas_lang.Scanner.Lexeme.{
  while_char, is_number, is_alpha, is_alpha_, is_alpha_number_, scan_identifier, scan_digits,
  scan_number,
}
use eokas_lang.Scanner.Strings.{ahead, eq_of_test}
use eokas_lang.Scanner.Runs.{
  IsRun, while_char-run, at_char, save-ahead, scan_char-alpha, scan_char-number, ahead-length, word,
  scan_loop-finished,
}

scan_identifier-word :
    (c : ℕ) (cs : Bytes) (d : ℕ) (rest : Bytes) (s : Scanner)
    → IsRun is_alpha_number_ cs
    → is_alpha_number_ d ≡ false
    → (k : ℕ) × (scan_identifier (at_char c (cs ++ (d ∷ rest)) s)
        ≡ ok (ahead (d ∷ rest) (record s { token = infer TokenType.id (word c cs); column = k })))
unfolding scan_identifier
scan_identifier-word c cs d rest s r e =
    let t = record s { token = word c []; column = s.column + 1 } in
    let (k, run) =
      while_char-run cs (suc (length (ahead (cs ++ (d ∷ rest)) t).position)) d rest is_alpha_number_
        t (ahead-length cs d rest t) r e in
    (k, rw (save-ahead c cs d rest s, ◌>>=◌) (rw (run, ◌>>=◌) refl))

-- In front of a word, a letter or an underscore and then letters, digits and underscores, up to a
-- byte that is none, a scan reads the word, gives it the type that `infer` finds with the identifier
-- as default, and stops behind it.
pub scan-word :
    (c : ℕ) (cs : Bytes) (d : ℕ) (rest : Bytes) (s : Scanner)
    → is_alpha_ c ≡ true
    → IsRun is_alpha_number_ cs
    → is_alpha_number_ d ≡ false
    → (k : ℕ) × (scan (record s { current = c; position = cs ++ (d ∷ rest) })
        ≡ ok (ahead (d ∷ rest) (record s { token = infer TokenType.id (word c cs); column = k })))
unfolding scan scan_default
scan-word c cs d rest s h r e =
    let (k, run) = scan_identifier-word c cs d rest s r e in
    (
      k,
      scan_loop-finished (length (cs ++ (d ∷ rest))) (at_char c (cs ++ (d ∷ rest)) s) _ (
          scan_char-alpha (at_char c (cs ++ (d ∷ rest)) s) h
          ∙ (rw (h, scan_default) (rw run refl))),
    )

other_than : (test : ℕ → Bool) (c k : ℕ) → test c ≡ false → test k ≡ true → (c == k) ≡ false
other_than test c k h e = elim (Bool-cases (c == k)) [
  | inl q ↦ absurd (cc (h, e, eq_of_test c k q))
  | inr r ↦ r
]

number-alpha : (c : ℕ) → is_number c ≡ true → is_alpha c ≡ false
unfolding is_alpha is_number
number-alpha c h = ground arith

digits-alpha :
    (cs : Bytes) (d : ℕ) (rest : Bytes) (s : Scanner)
    → IsRun is_number cs
    → is_alpha d ≡ false
    → is_alpha (ahead (cs ++ (d ∷ rest)) s).current ≡ false
digits-alpha [] d rest s r e = e
digits-alpha (c ∷ cs) d rest s r e = number-alpha c r.0

scan_digits-decimal :
    (s t : Scanner)
    → is_alpha s.current ≡ false
    → while_char (suc (length s.position)) is_number save_and_read_char s ≡ ok t
    → (t.current == b'.') ≡ false
    → scan_digits s ≡ ok (set_type TokenType.int_d t)
unfolding scan_digits is_alpha
scan_digits-decimal s t a e f =
    let n = λ (k : ℕ) (h : is_alpha k ≡ true). other_than is_alpha s.current k a h in
    rw (scan_digits, n b'b' refl, n b'B' refl, n b'x' refl, n b'X' refl, e, f) refl

-- In front of decimal digits, up to a byte that is no digit, no letter and no dot, a scan reads the
-- digits as one decimal integer token, and stops behind them.
pub scan-decimal :
    (c : ℕ) (cs : Bytes) (d : ℕ) (rest : Bytes) (s : Scanner)
    → is_number c ≡ true
    → IsRun is_number cs
    → is_number d ≡ false
    → is_alpha d ≡ false
    → (d == b'.') ≡ false
    → (k : ℕ) × (scan (record s { current = c; position = cs ++ (d ∷ rest) })
        ≡ ok (
            ahead
              (d ∷ rest)
              (record s { token = record { type = TokenType.int_d; value = c ∷ cs }; column = k })))
unfolding scan scan_number
scan-decimal c cs d rest s h r e a f =
    let t = record s { token = word c []; column = s.column + 1 } in
    let (k, run) =
      while_char-run cs (suc (length (ahead (cs ++ (d ∷ rest)) t).position)) d rest is_number t
        (ahead-length cs d rest t) r e in
    let digits =
      scan_digits-decimal (ahead (cs ++ (d ∷ rest)) t) _ (digits-alpha cs d rest t r a) run f in
    (
      k,
      scan_loop-finished (length (cs ++ (d ∷ rest))) (at_char c (cs ++ (d ∷ rest)) s) _ (
          scan_char-number (at_char c (cs ++ (d ∷ rest)) s) h
          ∙ (rw (scan_number, save-ahead c cs d rest s, ◌>>=◌) (rw digits refl))),
    )
