-- ===== src/Parser/Bounded/Checks.antt =====
-- The checks of src/app/parser.cxx within the tokens left.
use eokas_lang.Prelude.{
  ℕ, suc, ◌<◌, ◌≤◌, ◌≡◌, refl, Bool, true, false, arith, if◌then◌else◌, Bool-cases, inl, inr,
}
use eokas_lang.Token.{TokenType, same_type}
use eokas_lang.Parser.Source.{TokenSource}
use eokas_lang.Parser.Monad.{
  Parser, Outcome, M, ◌>>=◌, ◌>>◌, pure, return_null, token, next_token, Message, error,
}
use eokas_lang.Parser.Checks.{accept, require, require_id, check_token, error_token_unexpected}
use eokas_lang.Parser.Bounded.Rules.{
  Within, done, null, left, Keeps, Consumes, Within-weaken, next_token-eq_done, Keeps-bind,
  Keeps-pure, Keeps-null, Keeps-if, Keeps-of_consumes,
}

-- A check that moves on: it found its token and used it up, or left the scanner as it was.
data Checked ⦃src : TokenSource⦄ (n : ℕ) : Outcome Parser Bool → Type 0 where
  hit :
      {p : Parser}
      → src.IsReady p.scanner
      → src.left p.scanner < n
      → Checked n (Outcome.done true p)
  miss :
      {p : Parser}
      → src.IsReady p.scanner
      → src.left p.scanner ≤ n
      → Checked n (Outcome.done false p)

pub same-not_eos :
    (a b : TokenType)
    → same_type a b ≡ true
    → same_type b TokenType.eos ≡ false
    → same_type a TokenType.eos ≡ false
same-not_eos a b h g = ground arith

pub eq_eos : (t : TokenType) → same_type t TokenType.eos ≡ true → t ≡ TokenType.eos
eq_eos TokenType.eos h = refl
eq_eos _ h = cc

module _ ⦃src : TokenSource⦄ where
  pub Keeps-next_token : {n : ℕ} → Keeps n next_token
  Keeps-next_token = record {
    at = λ p i l.
        let (q, e, s) = next_token-eq_done p i in rw e (done s.ready (omega (arith, s.fewer)));
  }

  pub Keeps-error : {n : ℕ} (m : Message) → Keeps n (error m)
  unfolding error
  Keeps-error m = record { at = λ p i l. done i (omega arith) }

  pub Keeps-token : {n : ℕ} → Keeps n token
  Keeps-token = record { at = λ p i l. done i (omega arith) }

  pub Keeps-error_token_unexpected : {n : ℕ} → Keeps n error_token_unexpected
  unfolding error_token_unexpected
  Keeps-error_token_unexpected = record { at = λ p i l. done i (omega arith) }

  reported :
      (r : Bool) (p : Parser)
      → src.IsReady p.scanner
      → Checked (left p) (((if r then error_token_unexpected else pure tt) >> pure false) p)
  unfolding error_token_unexpected
  reported true p i = miss i (omega arith)
  reported false p i = miss i (omega arith)

  check_token-Checked :
      (t : TokenType) (required : Bool) (p : Parser)
      → same_type t TokenType.eos ≡ false
      → src.IsReady p.scanner
      → Checked (left p) (check_token t required true p)
  unfolding check_token
  check_token-Checked t required p not_eos i =
      elim (Bool-cases (same_type (src.token p.scanner).type t)) [
        | inl same ↦
            let (q, e, s) = next_token-eq_done p i in
            rw same (rw (e, ◌>>◌, ◌>>=◌) (hit s.ready (s.uses (same-not_eos _ t same not_eos))))
        | inr other ↦ rw other (reported required p i)
      ]

  -- A check that neither reports nor moves on only tests the token.
  pub check_token-peek :
      (t : TokenType) (p : Parser)
      → check_token t false false p ≡ Outcome.done (same_type (src.token p.scanner).type t) p
  unfolding check_token
  check_token-peek t p = ground arith

  -- Without `movenext` the scanner stays as it is.
  pub Keeps-check_token :
      {n : ℕ} (t : TokenType) (required : Bool) → Keeps n (check_token t required false)
  unfolding check_token error_token_unexpected
  Keeps-check_token t required = record {
    at = λ p i l. elim (Bool-cases (same_type (src.token p.scanner).type t)) [
      | inl same ↦ rw same (done i (omega arith))
      | inr other ↦ rw other (by_required required p i)
    ];
  }
    where
      by_required :
          (r : Bool) (p : Parser)
          → src.IsReady p.scanner
          → Within
              (suc (left p))
              (left p)
              (((if r then error_token_unexpected else pure tt) >> pure false) p)
      by_required true p i = done i (omega arith)
      by_required false p i = done i (omega arith)

  -- The branches of a check that moves on: `x` has one token less.
  module _ {A : Type 0} {n : ℕ} (t : TokenType) (x y : M A) where
    branches :
        (j : ℕ) (p : Parser)
        → left p < suc n
        → left p ≤ j
        → Keeps n x
        → ((q : Parser) → src.IsReady q.scanner → left q ≤ left p → Within j (left p) (y q))
        → {r : Outcome Parser Bool} → Checked (left p) r
        → Within j (left p) (elim r [
          | Outcome.done b q ↦ (if b then x else y) q
          | Outcome.null q ↦ Outcome.null q
          | Outcome.failed e ↦ Outcome.failed e
        ])
    branches j p l h kx ky (hit {p = q} i k) =
        Within-weaken _ _ (omega arith) (omega arith) (kx.at q i (omega arith))
    branches j p l h kx ky (miss {p = q} i k) = ky q i k

    pub Keeps-accept :
        same_type t TokenType.eos ≡ false
        → Keeps n x
        → Keeps (suc n) y
        → Keeps (suc n) (accept t >>= λ b. if b then x else y)
    Keeps-accept e kx ky = record {
      at = λ p i l.
          branches _ p l (omega arith) kx
            (λ q j k. Within-weaken _ _ (omega arith) k (ky.at q j (omega arith)))
            (check_token-Checked t false p e i);
    }

    pub Consumes-accept :
        same_type t TokenType.eos ≡ false
        → Keeps n x
        → Consumes (suc n) y
        → Consumes (suc n) (accept t >>= λ b. if b then x else y)
    Consumes-accept e kx ky = record {
      at = λ p i l.
          branches _ p l (omega arith) kx (λ q j k. Within-weaken _ _ k k (ky.at q j (omega arith)))
            (check_token-Checked t false p e i);
    }

  -- `check_token` alone, and the idiom that returns null without its token.
  pub Keeps-accept_plain :
      {n : ℕ} (t : TokenType) → same_type t TokenType.eos ≡ false → Keeps n (accept t)
  Keeps-accept_plain t e = record { at = λ p i l. by_check (check_token-Checked t false p e i) }
    where
      by_check : {n : ℕ} {r : Outcome Parser Bool} → Checked n r → Within (suc n) n r
      by_check (hit i l) = done i (omega arith)
      by_check (miss i l) = done i (omega arith)

  pub Consumes-require :
      {n : ℕ} (t : TokenType) → same_type t TokenType.eos ≡ false → Consumes n (require t)
  unfolding require
  Consumes-require t e = record { at = λ p i l. by_check (check_token-Checked t true p e i) }
    where
      by_check :
          {n : ℕ} {r : Outcome Parser Bool}
          → Checked n r
          → Within n n (elim r [
            | Outcome.done b q ↦ (if b then pure tt else return_null) q
            | Outcome.null q ↦ Outcome.null q
            | Outcome.failed e ↦ Outcome.failed e
          ])
      by_check (hit i l) = done i l
      by_check (miss i l) = null i l

  pub Keeps-require :
      {n : ℕ} (t : TokenType) → same_type t TokenType.eos ≡ false → Keeps n (require t)
  Keeps-require t e = Keeps-of_consumes (require t) (Consumes-require t e)

  pub Keeps-require_id : {n : ℕ} → Keeps n require_id
  unfolding require_id
  Keeps-require_id =
      search (Keeps-bind, Keeps-check_token, Keeps-token, Keeps-if, Keeps-pure, Keeps-null)

  pub require_id-found :
      (p : Parser)
      → same_type (src.token p.scanner).type TokenType.id ≡ true
      → require_id p ≡ Outcome.done (src.token p.scanner).value p
  unfolding require_id check_token
  require_id-found p h = ground arith
