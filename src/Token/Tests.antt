-- ===== src/Token/Tests.antt =====
-- The lookup of `infer`, src/app/scanner.cxx, on small tokens.
use eokas_lang.Prelude.{◌≡◌, ◌≢◌, refl, ap, some, none, Option, Bool, false, bytes_eq, Bytes, codes}
use eokas_lang.Token.{TokenType, Token, name, infer}
use eokas_lang.Token.Infer.{infer-name, infer-default}

abbrev word : Bytes → Token
word text = record { type = TokenType.unknown; value = text }

infer-name_example : (infer TokenType.id (word (codes "module"))).type ≡ TokenType.module_kw
infer-name_example = infer-name TokenType.module_kw TokenType.id (word (codes "module")) refl

no_name : (t : TokenType) → name t ≢ some (codes "x1")
unfolding bytes_eq
no_name t e = absurd (cc (absent t, ap same e))
  where
    same : Option Bytes → Bool
    same none = false
    same (some n) = bytes_eq (codes "x1") n

    absent : (t : TokenType) → same (name t) ≡ false
    absent TokenType.count = refl
    absent TokenType.unknown = refl
    absent _ = refl

infer-default_example : (infer TokenType.id (word (codes "x1"))).type ≡ TokenType.id
infer-default_example = infer-default TokenType.id (word (codes "x1")) no_name
