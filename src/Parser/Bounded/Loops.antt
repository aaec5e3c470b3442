-- ===== src/Parser/Bounded/Loops.antt =====
-- The loops of src/app/parser.cxx within the tokens left.
use eokas_lang.Prelude.{ℕ, zero, suc, ◌≤◌, ◌≡◌, false, arith}
use eokas_lang.Token.{TokenType, same_type}
use eokas_lang.Parser.Source.{TokenSource}
use eokas_lang.Parser.Monad.{M, token}
use eokas_lang.Parser.Loops.{Callees, until_token, separated}
use eokas_lang.Parser.Bounded.Rules.{
  Keeps, Consumes, Keeps-bind, Keeps-pure, Keeps-if, Keeps-of_consumes, Consumes-bind,
  Consumes-weaken, Keeps-weaken,
}
use eokas_lang.Parser.Bounded.Checks.{Keeps-accept, Keeps-token}

module _ ⦃src : TokenSource⦄ where
  -- The calls behind a token that was read: each uses up a token, and loops have enough rounds.
  pub record IsBounded (n : ℕ) (self : Callees) : Type 0 where
    pub type : Consumes n self.parse_type
    pub expr : Consumes n self.parse_expr
    pub stmt : Consumes n self.parse_stmt
    pub rounds : n ≤ self.rounds

  -- With no tokens left to count there is nothing to show.
  pub Keeps-zero : {A : Type 0} (m : M A) → Keeps zero m
  Keeps-zero m = record { at = λ p i l. absurd (omega arith) }

  module _ {A : Type 0} (close : TokenType) (not_eos : same_type close TokenType.eos ≡ false)
      (body : A → M A) where
    pub Keeps-until_token :
        (fuel n : ℕ)
        → n ≤ fuel
        → ((a : A) → Consumes n (body a))
        → (acc : A) → Keeps n (until_token fuel close body acc)
    unfolding until_token
    Keeps-until_token fuel zero h c acc = Keeps-zero _
    Keeps-until_token zero (suc n) h c acc = absurd (omega arith)
    Keeps-until_token (suc fuel) (suc n) h c acc = Keeps-accept close _ _ not_eos (Keeps-pure acc) (
        Keeps-of_consumes _ (
          Consumes-bind (body acc) _ (c acc) λ next.
            Keeps-until_token fuel n (omega arith) (λ a. Consumes-weaken (body a) (c a)) next))

    pub Keeps-separated :
        (sep : TokenType)
        → same_type sep TokenType.eos ≡ false
        → (fuel n : ℕ) → n ≤ fuel
        → ((a : A) → Keeps n (body a))
        → (acc : A) → Keeps n (separated fuel close sep body acc)
    unfolding separated
    Keeps-separated sep e fuel zero h k acc = Keeps-zero _
    Keeps-separated sep e zero (suc n) h k acc = absurd (omega arith)
    Keeps-separated sep e (suc fuel) (suc n) h k acc = Keeps-bind token _ Keeps-token λ t.
        Keeps-if (same_type t.type close) _ _ (Keeps-pure acc) (
          Keeps-bind (body acc) _ (k acc) λ next.
            Keeps-accept sep _ _ e
              (Keeps-separated sep e fuel n (omega arith) (λ a. Keeps-weaken (body a) (k a)) next)
              (Keeps-pure next))
