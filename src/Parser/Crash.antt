-- ===== src/Parser/Crash.antt =====
-- How `parse_expr_unary` of src/app/parser.cxx comes to dereference a null pointer.
use eokas_lang.Prelude.{◌≡◌, refl, true, false, some, null_deref}
use eokas_lang.Token.{TokenType, same_type}
use eokas_lang.Parser.Source.{TokenSource, Conversions}
use eokas_lang.Parser.Monad.{Parser, done, null, failed, ◌>>=◌, ◌>>◌, next_token}
use eokas_lang.Parser.Checks.{
  unexpected, unary_oper, is_unary, error_token_unexpected, check_token, check_unary_oper, require,
}
use eokas_lang.Parser.Loops.{Callees}
use eokas_lang.Parser.Functions.{parse_func_params, parse_func_def}
use eokas_lang.Parser.Exprs.Operators.{operand, apply_unary, parse_expr_unary}

module _ ⦃src : TokenSource⦄ where
  check_unary_oper-done :
      (p q : Parser)
      → is_unary (unary_oper (src.token p.scanner).type) ≡ true
      → next_token p ≡ done tt q
      → check_unary_oper false true p ≡ done (unary_oper (src.token p.scanner).type) q
  unfolding check_unary_oper
  check_unary_oper-done p q u e = rw (u, ◌>>=◌, ◌>>◌) (rw (e, ◌>>=◌, ◌>>◌))

  require-done :
      (t : TokenType) (p q : Parser)
      → same_type (src.token p.scanner).type t ≡ true
      → next_token p ≡ done tt q
      → require t p ≡ done tt q
  unfolding require check_token
  require-done t p q s e = rw (s, require, check_token, ◌>>=◌, ◌>>◌) (rw (e, ◌>>=◌, ◌>>◌))

  -- The state behind `error_token_unexpected`.
  abbrev reported : Parser → Parser
  reported p = record p {
    errormsg = some (record {
      message = unexpected (src.token p.scanner);
      line = src.line p.scanner;
      column = src.column p.scanner;
    });
  }

  require-null :
      (t : TokenType) (p : Parser)
      → same_type (src.token p.scanner).type t ≡ false
      → require t p ≡ null (reported p)
  unfolding require check_token error_token_unexpected
  require-null t p s = rw (s, require, check_token, ◌>>=◌, ◌>>◌) refl

  module _ (self : Callees) where
    parse_func_params-null :
        (p : Parser)
        → same_type (src.token p.scanner).type TokenType.lrb ≡ false
        → parse_func_params self p ≡ null (reported p)
    unfolding parse_func_params
    parse_func_params-null p s = rw (require-null TokenType.lrb p s, ◌>>=◌, ◌>>◌) refl

    parse_func_def-null :
        (p q : Parser)
        → (src.token p.scanner).type ≡ TokenType.func
        → next_token p ≡ done tt q
        → same_type (src.token q.scanner).type TokenType.lrb ≡ false
        → parse_func_def self p ≡ null (reported q)
    unfolding parse_func_def
    parse_func_def-null p q f e s =
        rw (require-done TokenType.func p q (rw f refl) e, ◌>>=◌, ◌>>◌)
          (rw (parse_func_params-null q s, ◌>>=◌) refl)

module _ ⦃src : TokenSource⦄ ⦃conv : Conversions⦄ (self : Callees) where
  -- A unary operator in front of `func` without its opening parenthesis: `parse_func_def` returns
  -- null, and `parse_expr_unary` dereferences it. `q` and `r` are the states behind the operator and
  -- behind `func`.
  pub parse_expr_unary-crash :
      (p q r : Parser)
      → is_unary (unary_oper (src.token p.scanner).type) ≡ true
      → next_token p ≡ done tt q
      → (src.token q.scanner).type ≡ TokenType.func
      → next_token q ≡ done tt r
      → same_type (src.token r.scanner).type TokenType.lrb ≡ false
      → parse_expr_unary self p ≡ failed null_deref
  unfolding parse_expr_unary operand apply_unary
  parse_expr_unary-crash p q r u e f g s =
      rw (check_unary_oper-done p q u e, ◌>>=◌)
        (rw (f, ◌>>=◌) (rw (parse_func_def-null self q r f g s, ◌>>=◌) (rw u refl)))
