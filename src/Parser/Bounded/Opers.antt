-- ===== src/Parser/Bounded/Opers.antt =====
-- The checks of operators of src/app/parser.cxx within the tokens left.
use eokas_lang.Prelude.{ℕ, suc, ◌≡◌, refl, true, false, arith, if◌then◌else◌, Bool-cases, inl, inr}
use eokas_lang.Token.{TokenType, same_type}
use eokas_lang.Ast.Oper.{BinaryOper, UnaryOper}
use eokas_lang.Parser.Source.{TokenSource}
use eokas_lang.Parser.Monad.{Parser, Outcome, M, ◌>>=◌, ◌>>◌, pure, next_token}
use eokas_lang.Parser.Checks.{
  check_unary_oper, check_binary_oper, is_unary, is_binary, unary_oper, binary_oper, at_priority,
}
use eokas_lang.Parser.Bounded.Rules.{Within, done, left, Keeps, Within-weaken, next_token-eq_done}

module _ ⦃src : TokenSource⦄ where
  pub Keeps-check_unary_oper : {n : ℕ} → Keeps n (check_unary_oper false true)
  unfolding check_unary_oper
  Keeps-check_unary_oper = record {
    at = λ p i l. by_oper p i (unary_oper (src.token p.scanner).type);
  }
    where
      by_oper :
          (p : Parser)
          → src.IsReady p.scanner
          → (o : UnaryOper)
          → Within
              (suc (left p))
              (left p)
              ((if is_unary o then (next_token >> pure o) else (pure tt >> pure o)) p)
      by_oper p i o =
          let (q, e, s) = next_token-eq_done p i in
          elim (Bool-cases (is_unary o)) [
            | inl yes_ ↦ rw yes_ (rw (e, ◌>>=◌, ◌>>◌) (done s.ready (omega (arith, s.fewer))))
            | inr no_ ↦ rw no_ (done i (omega arith))
          ]

-- The end of the source is no operator.
not_operator :
    (priority : ℕ) (t : TokenType)
    → is_binary (at_priority priority (binary_oper t)) ≡ true
    → same_type t TokenType.eos ≡ false
unfolding at_priority
not_operator priority TokenType.eos h = ground arith
not_operator priority _ h = refl

module _ ⦃src : TokenSource⦄ where
  check_binary_oper-found :
      (priority : ℕ) (p q : Parser)
      → let o = at_priority priority (binary_oper (src.token p.scanner).type) in
        is_binary o ≡ true
        → next_token p ≡ Outcome.done tt q
        → check_binary_oper priority false true p ≡ Outcome.done o q
  unfolding check_binary_oper
  check_binary_oper-found priority p q h e = rw h (rw (e, ◌>>=◌, ◌>>◌))

  check_binary_oper-other :
      (priority : ℕ) (p : Parser)
      → let o = at_priority priority (binary_oper (src.token p.scanner).type) in
        is_binary o ≡ false → check_binary_oper priority false true p ≡ Outcome.done o p
  unfolding check_binary_oper
  check_binary_oper-other priority p h = rw h

  -- The branches of a check for an operator: `x` has one token less.
  pub Keeps-operator :
      {A : Type 0} {n : ℕ} (priority : ℕ) (x : BinaryOper → M A) (y : M A)
      → ((o : BinaryOper) → Keeps n (x o))
      → Keeps (suc n) y
      → Keeps
          (suc n)
          (check_binary_oper priority false true >>= λ o. if is_binary o then x o else y)
  Keeps-operator priority x y kx ky = record {
    at = λ p i l.
        let o = at_priority priority (binary_oper (src.token p.scanner).type) in
        elim (Bool-cases (is_binary o)) [
          | inl found ↦
              let (q, e, s) = next_token-eq_done p i in
              let fewer = s.uses (not_operator priority _ found) in
              rw (check_binary_oper-found priority p q found e, ◌>>=◌)
                (rw found (
                  Within-weaken _ _ (omega arith) (omega arith)
                    ((kx o).at q s.ready (omega arith))))
          | inr other ↦
              rw (check_binary_oper-other priority p other, ◌>>=◌) (rw other (ky.at p i l))
        ];
  }
