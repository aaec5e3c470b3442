-- ===== src/Parser/Yields.antt =====
-- What holds of every result of a method of src/app/parser.cxx, whatever state it starts from.
use mathlib.Core.Path.{subst}
use eokas_lang.Prelude.{◌≡◌, Bool, true, false, if◌then◌else◌, Fault}
use eokas_lang.Parser.Source.{TokenSource}
use eokas_lang.Parser.Monad.{Parser, Outcome, M, ◌>>=◌, pure, return_null, give_up}

pub data Yields {S A : Type 0} (P : A → Type 0) : Outcome S A → Type 0 where
  yields : {a : A} {s : S} → P a → Yields P (Outcome.done a s)
  no_node : {s : S} → Yields P (Outcome.null s)
  faulted : {e : Fault} → Yields P (Outcome.failed e)

pub Yields-done :
    {S A : Type 0} {P : A → Type 0} {r : Outcome S A} {a : A} {s : S}
    → Yields P r
    → r ≡ Outcome.done a s
    → P a
Yields-done {P = P} (yields h) e = subst P (cc) h
Yields-done no_node e = cc
Yields-done faulted e = cc

module _ ⦃src : TokenSource⦄ where
  -- Each node that `m` returns satisfies `P`.
  pub record Always {A : Type 0} (P : A → Type 0) (m : M A) : Type 0 where
    pub at : (p : Parser) → Yields P (m p)

  module _ {A : Type 0} {P : A → Type 0} where
    pub Always-pure : (a : A) → P a → Always P (pure a)
    Always-pure a h = record { at = λ p. yields h }

    pub Always-null : Always P return_null
    Always-null = record { at = λ p. no_node }

    pub Always-map : {Q : A → Type 0} {m : M A} → ((a : A) → P a → Q a) → Always P m → Always Q m
    Always-map {Q} {m} f h = record { at = λ p. by_end (h.at p) }
      where
        by_end : {r : Outcome Parser A} → Yields P r → Yields Q r
        by_end (yields {a} k) = yields (f a k)
        by_end no_node = no_node
        by_end faulted = faulted

    pub Always-give_up : Always P give_up
    Always-give_up = record { at = λ p. faulted }

    pub Always-if : (b : Bool) (m k : M A) → Always P m → Always P k → Always P (if b then m else k)
    Always-if true m k hm hk = hm
    Always-if false m k hm hk = hk

  module _ {A B : Type 0} {Q : B → Type 0} where
    pub Always-bind_with :
        {P : A → Type 0} (m : M A) (f : A → M B)
        → Always P m
        → ((a : A) → P a → Always Q (f a))
        → Always Q (m >>= f)
    Always-bind_with {P} m f hm hf = record { at = λ p. by_end (hm.at p) }
      where
        by_end :
            {r : Outcome Parser A}
            → Yields P r
            → Yields Q (elim r [
              | Outcome.done a q ↦ f a q
              | Outcome.null q ↦ Outcome.null q
              | Outcome.failed e ↦ Outcome.failed e
            ])
        by_end (yields {a} {s} h) = (hf a h).at s
        by_end no_node = no_node
        by_end faulted = faulted

    -- The same with nothing known of the first result.
    pub Always-bind : (m : M A) (f : A → M B) → ((a : A) → Always Q (f a)) → Always Q (m >>= f)
    Always-bind m f hf =
        Always-bind_with {P = λ _. Unit {0}} m f (record { at = λ p. any (m p) }) λ a _. hf a
      where
        any : (r : Outcome Parser A) → Yields (λ _. Unit {0}) r
        any (Outcome.done a q) = yields tt
        any (Outcome.null q) = no_node
        any (Outcome.failed e) = faulted

    pub Always-bind_never : (m : M A) (f : A → M B) → Always (λ _. ⊥) m → Always Q (m >>= f)
    Always-bind_never m f h = Always-bind_with m f h λ a e. absurd e
