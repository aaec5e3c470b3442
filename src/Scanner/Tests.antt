-- ===== src/Scanner/Tests.antt =====
-- Runs of the scanner of src/app/scanner.cxx on small sources.
use eokas_lang.Prelude.{ℕ, ◌≡◌, refl, [], ◌∷◌, ◌++◌, arith, codes, ok, Ensures}
use eokas_lang.Token.{TokenType, empty_token}
use eokas_lang.Scanner.State.{Scanner, cleared}
use eokas_lang.Scanner.Lexeme.{scan_string}
use eokas_lang.Scanner.Scan.{next_token}
use eokas_lang.Scanner.Bounded.Reads.{IsBelow}
use eokas_lang.Scanner.Bounded.Tokens.{IsScanned, next_token-IsScanned}
use eokas_lang.Scanner.Runs.{word}
use eokas_lang.Scanner.Words.{scan-word, scan-decimal}
use eokas_lang.Scanner.Lexeme.{is_number, is_alpha, is_alpha_, is_alpha_number_}
use eokas_lang.Scanner.Scan.{scan}
use eokas_lang.Token.{infer}
use eokas_lang.Scanner.Names.{first_token, first_token-name}
use eokas_lang.Scanner.Strings.{escape, escape_char, ahead, read_string, scan_string-escape}

-- The scanner behind the first byte of `<= 2`.
abbrev at_le : Scanner
at_le = record cleared {
  source = codes "<= 2" ++ (0 ∷ []);
  position = codes "= 2" ++ (0 ∷ []);
  current = b'<';
  column = 1;
}

at_le-IsBelow : IsBelow empty_token 5 at_le
at_le-IsBelow = record {
  terminated = ((λ e. cc), ((λ e. cc), ((λ e. cc), ((λ e. cc), refl))));
  look = refl;
  short = omega arith;
}

next_token-IsScanned_example : Ensures (IsScanned empty_token 4) (next_token at_le)
next_token-IsScanned_example = next_token-IsScanned 4 at_le at_le-IsBelow

first_token-name_example :
    first_token (codes "|<") ≡ ok (record { type = TokenType.shift_l; value = codes "|<" })
first_token-name_example = first_token-name TokenType.shift_r (codes "|<") refl refl

-- The scanner at the opening quote of a string.
abbrev quoted : Scanner
quoted = record cleared { current = b'"'; column = 1 }

scan_string-escape_example :
    (k : ℕ) × (scan_string b'"'
        (record quoted { position = codes "a\\\"b\\n" ++ (b'"' ∷ b';' ∷ 0 ∷ []) })
      ≡ ok (ahead (b';' ∷ 0 ∷ []) (read_string (codes "a\"b\n") k quoted)))
unfolding escape escape_char
scan_string-escape_example =
    scan_string-escape (codes "a\"b\n") b';' (0 ∷ []) quoted
      ((λ e. cc), ((λ e. cc), ((λ e. cc), ((λ e. cc), tt))))

scan-word_example :
    (k : ℕ) × (scan (record cleared { current = b'x'; position = codes "_1" ++ (b' ' ∷ 0 ∷ []) })
      ≡ ok (
          ahead
            (b' ' ∷ 0 ∷ [])
            (record cleared { token = infer TokenType.id (word b'x' (codes "_1")); column = k })))
unfolding is_alpha_ is_alpha_number_
scan-word_example = scan-word b'x' (codes "_1") b' ' (0 ∷ []) cleared refl (refl, (refl, tt)) refl

scan-decimal_example :
    (k : ℕ) × (scan (record cleared { current = b'4'; position = codes "2" ++ (b';' ∷ 0 ∷ []) })
      ≡ ok (
          ahead (b';' ∷ 0 ∷ []) (record cleared {
            token = record { type = TokenType.int_d; value = codes "42" };
            column = k;
          })))
unfolding is_number is_alpha
scan-decimal_example =
    scan-decimal b'4' (codes "2") b';' (0 ∷ []) cleared refl (refl, tt) refl refl refl
