-- ===== src/Token/Infer.antt =====
-- `infer` of src/app/scanner.cxx finds the type whose name the text is.
use mathlib.Core.Path.{subst}
use eokas_lang.Prelude.{
  ◌≡◌, ◌≢◌, refl, sym, ap, false, Bool-cases, inl, inr, Option, none, some, List, [], ◌∷◌, Bytes,
  bytes_eq, bytes_eq_sound,
}
use eokas_lang.Token.{TokenType, Token, name, token_types, is_named, find_type, infer}

at_name :
    {a n : Bytes} (t : TokenType)
    → find_type a token_types ≡ some t
    → some a ≡ some n
    → find_type n token_types ≡ some t
at_name t h e = subst (λ v. find_type v token_types ≡ some t) (cc) h

-- The table holds each name once, so the search finds the type itself.
find_type-name : (t : TokenType) (n : Bytes) → name t ≡ some n → find_type n token_types ≡ some t
unfolding find_type bytes_eq
find_type-name TokenType.count n e = cc
find_type-name TokenType.unknown n e = cc
find_type-name t n e = at_name t refl e

-- A text that is the name of a type is given that type, whatever the default is.
pub infer-name :
    (t default_type : TokenType) (token : Token)
    → name t ≡ some token.value
    → (infer default_type token).type ≡ t
unfolding infer
infer-name t d token e = rw (find_type-name t token.value e, infer)

named_none : (n : Bytes) (t : TokenType) → name t ≢ some n → is_named n t ≡ false
named_none n t h = by_name (name t) h
  where
    by_name :
        (o : Option Bytes) → o ≢ some n → (elim o [ none ↦ false | some m ↦ bytes_eq n m ]) ≡ false
    by_name none h = refl
    by_name (some m) h = elim (Bool-cases (bytes_eq n m)) [
      | inl same ↦ absurd (h (ap some (sym (bytes_eq_sound n m same))))
      | inr other ↦ other
    ]

find_type-none :
    (n : Bytes) (ts : List TokenType) → ((t : TokenType) → name t ≢ some n) → find_type n ts ≡ none
unfolding find_type
find_type-none n [] h = refl
find_type-none n (t ∷ ts) h = rw (named_none n t (h t)) (find_type-none n ts h)

-- A text that names no type is given the default type.
pub infer-default :
    (default_type : TokenType) (token : Token)
    → ((t : TokenType) → name t ≢ some token.value)
    → (infer default_type token).type ≡ default_type
unfolding infer
infer-default d token h = rw (find_type-none token.value token_types h, infer)
