-- ===== src/Omis/Steady/Rules.antt =====
-- A method of src/omis/model.cpp that leaves the scopes as it found them, but for symbols that it adds to the
-- current one, and the tables with what they had.
use mathlib.Core.Path.{subst}
use mathlib.Core.List.{append_assoc}
use eokas_lang.Prelude.{
  ◌≡◌, refl, sym, ap, ◌∙◌, Bool, true, false, Option, none, some, List, [], ◌++◌, Bytes, Fault,
  if◌then◌else◌, ok, fault,
}
use eokas_lang.Parser.Monad.{Outcome, done, null, failed}
use eokas_lang.Omis.Bridge.{Bridge, Op}
use eokas_lang.Omis.Interned.{Grows, Grows-of, Grows-trans}
use eokas_lang.Omis.State.{
  OmisValue, OmisModule, M, ◌>>=◌, ◌>>◌, pure, return_null, crash, deref, get_state, modify, answer,
  ask,
}

module _ ⦃B : Bridge⦄ where
  -- From `s` to `t` the enclosing scopes, the function, the types and the targets of `break` and
  -- `continue` are unchanged, and the current scope has only gained values.
  pub record Restores (s t : OmisModule) : Type 0 where
    pub parents : t.parents ≡ s.parents
    pub func : t.scope.func ≡ s.scope.func
    pub types : t.scope.types ≡ s.scope.types
    pub break_point : t.break_point ≡ s.break_point
    pub continue_point : t.continue_point ≡ s.continue_point
    pub new : List (Bytes × OmisValue)
    pub values : t.scope.values ≡ new ++ s.scope.values

  pub Restores-refl : (s : OmisModule) → Restores s s
  Restores-refl s = record {
    parents = refl;
    func = refl;
    types = refl;
    break_point = refl;
    continue_point = refl;
    new = [];
    values = refl;
  }

  pub Restores-trans : {s t u : OmisModule} → Restores s t → Restores t u → Restores s u
  Restores-trans {s} a b = record {
    parents = b.parents ∙ a.parents;
    func = b.func ∙ a.func;
    types = b.types ∙ a.types;
    break_point = b.break_point ∙ a.break_point;
    continue_point = b.continue_point ∙ a.continue_point;
    new = b.new ++ a.new;
    values =
        b.values ∙ ap (λ w. b.new ++ w) a.values ∙ sym (append_assoc b.new a.new s.scope.values);
  }

  -- What a run from `s` that ends well in `t` has done.
  pub record Run (s t : OmisModule) : Type 0 where
    pub restores : Restores s t
    pub grows : Grows s t

  pub Run-refl : (s : OmisModule) → Run s s
  Run-refl s = record { restores = Restores-refl s; grows = Grows-of refl refl refl }

  pub Run-trans : {s t u : OmisModule} → Run s t → Run t u → Run s u
  Run-trans a b = record {
    restores = Restores-trans a.restores b.restores;
    grows = Grows-trans a.grows b.grows;
  }

  pub data Kept {A : Type 0} (s : OmisModule) : Outcome OmisModule A → Type 0 where
    kept : {a : A} {t : OmisModule} → Run s t → Kept s (done a t)
    no_result : {t : OmisModule} → Kept s (null t)
    faulted : {e : Fault} → Kept s (failed e)

  pub Kept-done :
      {A : Type 0} {s t : OmisModule} {a : A} {r : Outcome OmisModule A}
      → Kept s r
      → r ≡ done a t
      → Run s t
  Kept-done {s} (kept {t = u} h) e = subst (λ v. Run s v) (cc) h
  Kept-done no_result e = cc
  Kept-done faulted e = cc

  pub record Steady {A : Type 0} (m : M A) : Type 0 where
    pub at : (s : OmisModule) → Kept s (m s)

  pub Kept-from :
      {A : Type 0} {s t : OmisModule} {r : Outcome OmisModule A} → Run s t → Kept t r → Kept s r
  Kept-from a (kept h) = kept (Run-trans a h)
  Kept-from a no_result = no_result
  Kept-from a faulted = faulted

  module _ {A : Type 0} where
    answer-Kept : (s : OmisModule) (r : eokas_lang.Prelude.Run (A × B.State)) → Kept s (answer s r)
    answer-Kept s (ok (a, b)) = kept (record {
      restores = record {
        parents = refl;
        func = refl;
        types = refl;
        break_point = refl;
        continue_point = refl;
        new = [];
        values = refl;
      };
      grows = Grows-of refl refl refl;
    })
    answer-Kept s (fault e) = faulted

    pub Steady-pure : (a : A) → Steady (pure a)
    Steady-pure a = record { at = λ s. kept (Run-refl s) }

    pub Steady-null : Steady {A = A} return_null
    Steady-null = record { at = λ s. no_result }

    pub Steady-deref : (o : Option A) → Steady (deref o)
    Steady-deref none = record { at = λ s. faulted }
    Steady-deref (some a) = Steady-pure a

    pub Steady-crash : Steady {A = A} crash
    Steady-crash = record { at = λ s. faulted }

    pub Steady-ask : (op : Op B.State A) → Steady (ask op)
    unfolding ask
    Steady-ask op = record { at = λ s. answer-Kept s (op s.bridge) }

    pub Steady-if : (b : Bool) (m n : M A) → Steady m → Steady n → Steady (if b then m else n)
    Steady-if true m n hm hn = hm
    Steady-if false m n hm hn = hn

    pub Steady-option :
        {C : Type 0} (o : Option C) (f : C → M A) (n : M A)
        → ((c : C) → Steady (f c))
        → Steady n
        → Steady (elim o [ some c ↦ f c | none ↦ n ])
    Steady-option (some c) f n hf hn = hf c
    Steady-option none f n hf hn = hn

  pub Steady-get : Steady get_state
  Steady-get = record { at = λ s. kept (Run-refl s) }

  pub Steady-modify :
      (f : OmisModule → OmisModule) → ((s : OmisModule) → Run s (f s)) → Steady (modify f)
  Steady-modify f h = record { at = λ s. kept (h s) }

  module _ {A C : Type 0} where
    pub Steady-bind :
        (m : M A) (f : A → M C) → Steady m → ((a : A) → Steady (f a)) → Steady (m >>= f)
    Steady-bind m f hm hf = record { at = λ s. by_end (hm.at s) }
      where
        by_end :
            {s : OmisModule} {r : Outcome OmisModule A}
            → Kept s r
            → Kept {A = C} s (elim r [ done a t ↦ f a t | null t ↦ null t | failed e ↦ failed e ])
        by_end (kept {a} {t} h) = Kept-from h ((hf a).at t)
        by_end no_result = no_result
        by_end faulted = faulted

  pub Steady-then :
      {C : Type 0} (m : M (Unit {0})) (n : M C) → Steady m → Steady n → Steady (m >> n)
  Steady-then m n hm hn = Steady-bind m (λ _. n) hm (λ _. hn)
