-- ===== src/Parser/Bounded/Literals.antt =====
-- Identifiers and literals of src/app/parser.cxx within the tokens left.
use eokas_lang.Prelude.{
  ℕ, suc, ◌≡◌, refl, sym, Option-cases, ◌⊎◌, false, Option, none, some, arith, Bool-cases, inl, inr,
  Bytes,
}
use mathlib.Core.Path.{subst}
use eokas_lang.Token.{TokenType, same_type}
use eokas_lang.Parser.Source.{TokenSource}
use eokas_lang.Parser.Monad.{Parser, Outcome, M, ◌>>=◌, ◌>>◌, next_token, error}
use eokas_lang.Parser.Checks.{require_id, check_token, error_token_unexpected, unexpected}
use eokas_lang.Parser.Literals.{literal}
use eokas_lang.Parser.Bounded.Rules.{
  Within, done, null, left, Keeps, Consumes, Within-weaken, next_token-eq_done,
}
use eokas_lang.Parser.Bounded.Checks.{require_id-found, same-not_eos, eq_eos}

module _ ⦃src : TokenSource⦄ where
  -- The state that `error_token_unexpected` leaves.
  abbrev reported_at : Parser → Parser
  reported_at p = record p {
    errormsg = some (record {
      message = unexpected (src.token p.scanner);
      line = src.line p.scanner;
      column = src.column p.scanner;
    });
  }

  require_id-other :
      (p : Parser)
      → same_type (src.token p.scanner).type TokenType.id ≡ false
      → require_id p ≡ Outcome.null (reported_at p)
  unfolding require_id check_token error_token_unexpected error
  require_id-other p h = ground arith

  -- An identifier and the step over it.
  pub Consumes-id :
      {A : Type 0} {n : ℕ} (k : Bytes → M A)
      → ((name : Bytes) → Keeps n (k name))
      → Consumes (suc n) (require_id >>= λ name. next_token >>= λ _. k name)
  Consumes-id k kk = record {
    at = λ p i l. elim (Bool-cases (same_type (src.token p.scanner).type TokenType.id)) [
      | inl same ↦
          let (q, e, s) = next_token-eq_done p i in
          let fewer = s.uses (same-not_eos _ TokenType.id same refl) in
          rw (require_id-found p same, ◌>>=◌)
            (rw (e, ◌>>=◌)
              (Within-weaken _ _ (omega arith) (omega arith)
                ((kk (src.token p.scanner).value).at q s.ready (omega arith))))
      | inr other ↦ rw (require_id-other p other, ◌>>=◌) (null i (omega arith))
    ];
  }

  literal-some :
      {A : Type 0} (value : TokenType → Bytes → Option A) (p : Parser) (a : A)
      → src.IsReady p.scanner
      → same_type (src.token p.scanner).type TokenType.eos ≡ false
      → value (src.token p.scanner).type (src.token p.scanner).value ≡ some a
      → Within (left p) (left p) (literal value p)
  unfolding literal
  literal-some value p a i u h =
      let (q, e, s) = next_token-eq_done p i in
      rw (h, literal, ◌>>=◌) (rw (e, ◌>>=◌, ◌>>◌) (done s.ready (s.uses u)))

  literal-none :
      {A : Type 0} (value : TokenType → Bytes → Option A) (p : Parser)
      → src.IsReady p.scanner
      → value (src.token p.scanner).type (src.token p.scanner).value ≡ none
      → Within (left p) (left p) (literal value p)
  unfolding literal error_token_unexpected error
  literal-none value p i h = rw (h, literal, ◌>>=◌) (null i (omega arith))

  -- A literal, whose switch has no case for the end of the source.
  pub Consumes-literal :
      {A : Type 0} {n : ℕ} (value : TokenType → Bytes → Option A)
      → ((text : Bytes) → value TokenType.eos text ≡ none)
      → Consumes n (literal value)
  Consumes-literal {A} value at_eos = record {
    at = λ p i l. elim (Bool-cases (same_type (src.token p.scanner).type TokenType.eos)) [
      | inl end ↦
          literal-none value p i (
            subst (λ t. value t (src.token p.scanner).value ≡ none) (sym (eq_eos _ end)) (at_eos _))
      | inr more ↦
          by_value p i more
            (Option-cases (value (src.token p.scanner).type (src.token p.scanner).value))
    ];
  }
    where
      by_value :
          (p : Parser)
          → src.IsReady p.scanner
          → same_type (src.token p.scanner).type TokenType.eos ≡ false
          → let v = value (src.token p.scanner).type (src.token p.scanner).value in
            (v ≡ none) ⊎ ((a : A) × (v ≡ some a)) → Within (left p) (left p) (literal value p)
      by_value p i u (inl h) = literal-none value p i h
      by_value p i u (inr (a, h)) = literal-some value p a i u h
