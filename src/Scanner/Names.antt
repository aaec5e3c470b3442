-- ===== src/Scanner/Names.antt =====
-- The texts of `token_t::names` in src/app/scanner.h against the switch of `scan`.
use mathlib.Core.Path.{subst}
use eokas_lang.Prelude.{
  ◌≡◌, refl, Bool, true, false, ◌++◌, [], ◌∷◌, Bytes, Run, ok, ◌>>=◌, bytes_eq, some,
}
use eokas_lang.Token.{TokenType, Token, name, infer}
use eokas_lang.Scanner.State.{ready}
use eokas_lang.Scanner.Scan.{scan, next_token}

-- The first token of a source.
abbrev pub first_token : Bytes → Run Token
first_token text = (do s ← ready (text ++ (0 ∷ [])); t ← next_token s; ok t.token)

-- The types whose name is the text of their tokens: keywords, punctuation and operators.
abbrev pub is_spelled : TokenType → Bool
is_spelled TokenType.int_b = false
is_spelled TokenType.int_x = false
is_spelled TokenType.int_d = false
is_spelled TokenType.float = false
is_spelled TokenType.string = false
is_spelled TokenType.id = false
is_spelled TokenType.eos = false
is_spelled TokenType.count = false
is_spelled TokenType.unknown = false
is_spelled _ = true

-- The type that `scan` gives to the name of a type: the table names the two shifts the other way
-- round.
abbrev pub scanned_as : TokenType → TokenType
scanned_as TokenType.shift_l = TokenType.shift_r
scanned_as TokenType.shift_r = TokenType.shift_l
scanned_as t = t

at_name :
    {a n : Bytes} (t : TokenType)
    → first_token a ≡ ok (record { type = t; value = a })
    → some a ≡ some n
    → first_token n ≡ ok (record { type = t; value = n })
at_name t h e = subst (λ v. first_token v ≡ ok (record { type = t; value = v })) (cc) h

-- The name of a keyword, of punctuation or of an operator, alone in a source, is scanned as that
-- type, with the name as its text; but the name of each shift is scanned as the other shift.
pub first_token-name :
    (t : TokenType) (text : Bytes)
    → is_spelled t ≡ true
    → name t ≡ some text
    → first_token text ≡ ok (record { type = scanned_as t; value = text })
unfolding ready next_token scan infer bytes_eq
first_token-name TokenType.int_b n h e = cc
first_token-name TokenType.int_x n h e = cc
first_token-name TokenType.int_d n h e = cc
first_token-name TokenType.float n h e = cc
first_token-name TokenType.string n h e = cc
first_token-name TokenType.id n h e = cc
first_token-name TokenType.eos n h e = cc
first_token-name TokenType.count n h e = cc
first_token-name TokenType.unknown n h e = cc
first_token-name t n h e = at_name (scanned_as t) refl e
