-- ===== src/Parser/Bounded/Rules.antt =====
-- Rules for methods of src/app/parser.cxx that stay within the tokens left, one for each way to
-- build a method.
use eokas_lang.Prelude.{
  ℕ, suc, ◌<◌, ◌≤◌, ◌≡◌, Bool, true, false, Option, none, some, arith, if◌then◌else◌, null_deref,
  Ensures-eq_ok,
}
use eokas_lang.Token.{TokenType, same_type}
use eokas_lang.Parser.Source.{TokenSource}
use eokas_lang.Parser.Monad.{
  Parser, Outcome, M, ◌>>=◌, pure, return_null, crash, nullable, next_token,
}

-- A method ended in a ready state: with fewer than `n` tokens left, or with null and at most `k`, or
-- it dereferenced a null pointer. It neither read behind the source nor met a bound of the model.
pub data Within ⦃src : TokenSource⦄ {A : Type 0} (n k : ℕ) : Outcome Parser A → Type 0 where
  done :
      {a : A} {p : Parser}
      → src.IsReady p.scanner
      → src.left p.scanner < n
      → Within n k (Outcome.done a p)
  null : {p : Parser} → src.IsReady p.scanner → src.left p.scanner ≤ k → Within n k (Outcome.null p)
  crashed : Within n k (Outcome.failed null_deref)

module _ ⦃src : TokenSource⦄ where
  -- The tokens left.
  abbrev pub left : Parser → ℕ
  left p = src.left p.scanner

  -- From a ready state with fewer than `n` tokens left, `m` uses up a token if it succeeds.
  pub record Consumes {A : Type 0} (n : ℕ) (m : M A) : Type 0 where
    pub at : (p : Parser) → src.IsReady p.scanner → left p < n → Within (left p) (left p) (m p)

  -- The same with no token used up.
  pub record Keeps {A : Type 0} (n : ℕ) (m : M A) : Type 0 where
    pub at :
        (p : Parser) → src.IsReady p.scanner → left p < n → Within (suc (left p)) (left p) (m p)

  pub Within-weaken :
      {A : Type 0} {n k : ℕ} (n' k' : ℕ) {r : Outcome Parser A}
      → n ≤ n'
      → k ≤ k'
      → Within n k r
      → Within n' k' r
  Within-weaken n' k' h g (done i j) = done i (omega arith)
  Within-weaken n' k' h g (null i j) = null i (omega arith)
  Within-weaken n' k' h g crashed = crashed

  pub Within-bind :
      {A B : Type 0} {n k : ℕ} (n' : ℕ) {r : Outcome Parser A} (f : A → M B)
      → Within n k r
      → ((a : A) (q : Parser) → src.IsReady q.scanner → left q < n → Within n' k (f a q))
      → Within n' k (elim r [
        | Outcome.done a q ↦ f a q
        | Outcome.null q ↦ Outcome.null q
        | Outcome.failed e ↦ Outcome.failed e
      ])
  Within-bind n' f (done {a} {p} i l) c = c a p i l
  Within-bind n' f (null i l) c = null i l
  Within-bind n' f crashed c = crashed

  module _ {A : Type 0} {n : ℕ} where
    pub Keeps-pure : (a : A) → Keeps n (pure a)
    Keeps-pure a = record { at = λ p i l. done i (omega arith) }

    pub Keeps-null : Keeps n (return_null {A = A})
    Keeps-null = record { at = λ p i l. null i (omega arith) }

    pub Consumes-null : Consumes n (return_null {A = A})
    Consumes-null = record { at = λ p i l. null i (omega arith) }

    pub Consumes-crash : Consumes n (crash {A = A})
    Consumes-crash = record { at = λ p i l. crashed }

    pub Keeps-crash : Keeps n (crash {A = A})
    Keeps-crash = record { at = λ p i l. crashed }

    pub Keeps-of_consumes : (m : M A) → Consumes n m → Keeps n m
    Keeps-of_consumes m c = record {
      at = λ p i l. Within-weaken _ _ (omega arith) (omega arith) (c.at p i l);
    }

    pub Consumes-weaken : (m : M A) → Consumes (suc n) m → Consumes n m
    Consumes-weaken m c = record { at = λ p i l. c.at p i (omega arith) }

    pub Consumes-below : {k : ℕ} (m : M A) → k ≤ n → Consumes n m → Consumes k m
    Consumes-below m h c = record { at = λ p i l. c.at p i (omega arith) }

    pub Keeps-weaken : (m : M A) → Keeps (suc n) m → Keeps n m
    Keeps-weaken m c = record { at = λ p i l. c.at p i (omega arith) }

    pub Keeps-if : (b : Bool) (m k : M A) → Keeps n m → Keeps n k → Keeps n (if b then m else k)
    Keeps-if true m k km kk = km
    Keeps-if false m k km kk = kk

    pub Consumes-if :
        (b : Bool) (m k : M A) → Consumes n m → Consumes n k → Consumes n (if b then m else k)
    Consumes-if true m k km kk = km
    Consumes-if false m k km kk = kk

    pub Keeps-nullable : (m : M A) → Consumes n m → Keeps n (nullable m)
    Keeps-nullable m c = record { at = λ p i l. by_end p (c.at p i l) }
      where
        by_end :
            (p : Parser) {r : Outcome Parser A}
            → Within (left p) (left p) r
            → Within (suc (left p)) (left p) (elim r [
              | Outcome.done a q ↦ Outcome.done (some a) q
              | Outcome.null q ↦ Outcome.done none q
              | Outcome.failed e ↦ Outcome.failed e
            ])
        by_end p (done i l) = done i (omega arith)
        by_end p (null i l) = done i (omega arith)
        by_end p crashed = crashed

  module _ {A B : Type 0} {n : ℕ} where
    pub Keeps-bind :
        (m : M A) (f : A → M B) → Keeps n m → ((a : A) → Keeps n (f a)) → Keeps n (m >>= f)
    Keeps-bind m f km kf = record {
      at = λ p i l.
          Within-bind _ f (km.at p i l) λ a q iq lq.
            Within-weaken _ _ (omega arith) (omega arith) ((kf a).at q iq (omega arith));
    }

    -- What follows a method that used up a token has one token less.
    pub Consumes-bind :
        (m : M A) (f : A → M B)
        → Consumes (suc n) m
        → ((a : A) → Keeps n (f a))
        → Consumes (suc n) (m >>= f)
    Consumes-bind m f km kf = record {
      at = λ p i l.
          Within-bind _ f (km.at p i l) λ a q iq lq.
            Within-weaken _ _ (omega arith) (omega arith) ((kf a).at q iq (omega arith));
    }

    -- Without counting the token.
    pub Consumes-bind_first :
        (m : M A) (f : A → M B) → Consumes n m → ((a : A) → Keeps n (f a)) → Consumes n (m >>= f)
    Consumes-bind_first m f km kf = record {
      at = λ p i l.
          Within-bind _ f (km.at p i l) λ a q iq lq.
            Within-weaken _ _ (omega arith) (omega arith) ((kf a).at q iq (omega arith));
    }

    pub Consumes-bind_keeps :
        (m : M A) (f : A → M B) → Keeps n m → ((a : A) → Consumes n (f a)) → Consumes n (m >>= f)
    Consumes-bind_keeps m f km kf = record {
      at = λ p i l.
          Within-bind _ f (km.at p i l) λ a q iq lq.
            Within-weaken _ _ (omega arith) (omega arith) ((kf a).at q iq (omega arith));
    }

module _ ⦃src : TokenSource⦄ {A : Type 0} where
  abbrev caught : Outcome Parser A → Outcome Parser (Option A)
  caught r = elim r [
    | Outcome.done a q ↦ Outcome.done (some a) q
    | Outcome.null q ↦ Outcome.done none q
    | Outcome.failed e ↦ Outcome.failed e
  ]

module _ ⦃src : TokenSource⦄ {A B : Type 0} {n : ℕ} where
  -- A caller that looks at a null result, and succeeds only if it uses up a token itself then.
  pub Consumes-nullable :
      (m : M A) (f : Option A → M B)
      → Consumes n m
      → ((a : A) → Keeps n (f (some a)))
      → Consumes n (f none)
      → Consumes n (nullable m >>= f)
  Consumes-nullable m f km ks kn = record { at = λ p i l. by_end p l (km.at p i l) }
    where
      by_end :
          (p : Parser)
          → left p < n
          → {r : Outcome Parser A} → Within (left p) (left p) r
          → Within (left p) (left p) (elim (caught r) [
            | Outcome.done a q ↦ f a q
            | Outcome.null q ↦ Outcome.null q
            | Outcome.failed e ↦ Outcome.failed e
          ])
      by_end p l (done {a} {p = q} i k) =
          Within-weaken _ _ (omega arith) (omega arith) ((ks a).at q i (omega arith))
      by_end p l (null {p = q} i k) = Within-weaken _ _ k k (kn.at q i (omega arith))
      by_end p l crashed = crashed

-- A state behind `next_token`: ready, with no more tokens left than at `p`, and with fewer if `p`
-- does not stand at the end of the source.
pub record IsNext ⦃src : TokenSource⦄ (p q : Parser) : Type 0 where
  pub ready : src.IsReady q.scanner
  pub fewer : left q ≤ left p
  pub uses : same_type (src.token p.scanner).type TokenType.eos ≡ false → left q < left p

module _ ⦃src : TokenSource⦄ where
  pub next_token-eq_done :
      (p : Parser)
      → src.IsReady p.scanner
      → (q : Parser) × (next_token p ≡ Outcome.done tt q) × IsNext p q
  unfolding next_token
  next_token-eq_done p i =
      let (s, e, r) = Ensures-eq_ok (src.next_lem p.scanner i) in
      (
        record p { scanner = s },
        rw (e, next_token),
        record { ready = r.0; fewer = r.1; uses = r.2 },
      )
