-- ===== src/Omis/Steady/Scoped.antt =====
-- Methods of src/omis/model.cpp that enter a scope and leave it.
use eokas_lang.Prelude.{
  ◌≡◌, refl, ◌∙◌, Option, [], ◌∷◌, Bytes, Fault, ◌⊎◌, inl, inr, Bool-cases, arith,
}
use eokas_lang.Ast.Map.{has_key}
use eokas_lang.Parser.Monad.{Outcome, done, null, failed}
use eokas_lang.Omis.Bridge.{Bridge}
use eokas_lang.Omis.Interned.{Grows, Grows-of, Grows-trans}
use eokas_lang.Omis.State.{OmisValue, OmisModule, M, ◌>>=◌, ◌>>◌, pure, nullable}
use eokas_lang.Omis.Scopes.{add, add_value_symbol, push_scope, pop_scope, child}
use eokas_lang.Omis.Control.{both, set_points}
use eokas_lang.Omis.Steady.Rules.{
  Run, Run-refl, Run-trans, Kept, kept, no_result, faulted, Kept-done, Steady,
}

module _ ⦃B : Bridge⦄ where
  -- The state that `push_scope` leaves.
  abbrev pub pushed : Option OmisValue → OmisModule → OmisModule
  pushed f s = record s { scope = child f s.scope; parents = s.scope ∷ s.parents }

  -- `m` is run below a scope that was entered at `s`, from a state that satisfies `P`.
  pub record Below {A : Type 0} (s : OmisModule) (P : OmisModule → Type 0) (m : M A) : Type 0 where
    pub at : (t : OmisModule) → P t → Kept s (m t)

  -- The scopes of `t` are those of `s` with one more, and the targets are those of `s`.
  pub record Entered (s t : OmisModule) : Type 0 where
    pub parents : t.parents ≡ s.scope ∷ s.parents
    pub break_point : t.break_point ≡ s.break_point
    pub continue_point : t.continue_point ≡ s.continue_point
    pub grows : Grows s t

  -- The same inside a loop, whose targets are its own.
  pub record InLoop (s t : OmisModule) : Type 0 where
    pub parents : t.parents ≡ s.scope ∷ s.parents
    pub grows : Grows s t

  Entered-run : (s t u : OmisModule) → Entered s t → Run t u → Entered s u
  Entered-run s t u e r = record {
    parents = r.restores.parents ∙ e.parents;
    break_point = r.restores.break_point ∙ e.break_point;
    continue_point = r.restores.continue_point ∙ e.continue_point;
    grows = Grows-trans e.grows r.grows;
  }

  InLoop-run : (s t u : OmisModule) → InLoop s t → Run t u → InLoop s u
  InLoop-run s t u e r = record {
    parents = r.restores.parents ∙ e.parents;
    grows = Grows-trans e.grows r.grows;
  }

  module _ {A C : Type 0} {s : OmisModule} {P : OmisModule → Type 0}
      (closed : (t u : OmisModule) → P t → Run t u → P u) where
    Below-bind_in :
        (m : M A) (f : A → M C) → Steady m → ((a : A) → Below s P (f a)) → Below s P (m >>= f)
    Below-bind_in m f hm hf = record { at = λ t p. by_end t p (hm.at t) }
      where
        by_end :
            (t : OmisModule)
            → P t
            → {r : Outcome OmisModule A} → Kept t r
            → Kept {A = C} s (elim r [ done a u ↦ f a u | null u ↦ null u | failed e ↦ failed e ])
        by_end t p (kept {a} {t = u} h) = (hf a).at u (closed t u p h)
        by_end t p no_result = no_result
        by_end t p faulted = faulted

  module _ {A C : Type 0} (s : OmisModule) where
    pub Below-bind :
        (m : M A) (f : A → M C)
        → Steady m
        → ((a : A) → Below s (Entered s) (f a))
        → Below s (Entered s) (m >>= f)
    Below-bind m f hm hf = Below-bind_in (Entered-run s) m f hm hf

    pub Below-bind_loop :
        (m : M A) (f : A → M C)
        → Steady m
        → ((a : A) → Below s (InLoop s) (f a))
        → Below s (InLoop s) (m >>= f)
    Below-bind_loop m f hm hf = Below-bind_in (InLoop-run s) m f hm hf

  -- Leaving the scope.
  abbrev pub left_scope : OmisModule → OmisModule → OmisModule
  left_scope s t = record t { scope = s.scope; parents = s.parents }

  pub pop_scope-eq :
      (s t : OmisModule) → t.parents ≡ s.scope ∷ s.parents → pop_scope t ≡ done tt (left_scope s t)
  unfolding pop_scope
  pop_scope-eq s t e = ground arith

  left_scope-Run :
      (s t : OmisModule)
      → t.break_point ≡ s.break_point
      → t.continue_point ≡ s.continue_point
      → Grows s t
      → Run s (left_scope s t)
  left_scope-Run s t b c g = record {
    restores = record {
      parents = refl;
      func = refl;
      types = refl;
      break_point = b;
      continue_point = c;
      new = [];
      values = refl;
    };
    grows = Grows-trans g (Grows-of refl refl refl);
  }

  pub Below-pop : (s : OmisModule) → Below s (Entered s) pop_scope
  Below-pop s = record {
    at = λ t e.
        rw (pop_scope-eq s t e.parents)
          (kept (left_scope-Run s t e.break_point e.continue_point e.grows));
  }

  pub Below-pop_pure :
      {A : Type 0} (s : OmisModule) (a : A) → Below s (Entered s) (pop_scope >> pure a)
  Below-pop_pure s a = record {
    at = λ t e.
        rw (pop_scope-eq s t e.parents, ◌>>◌, ◌>>=◌)
          (kept (left_scope-Run s t e.break_point e.continue_point e.grows));
  }

  -- The end of a loop: the targets are set back, and the scope is left.
  pub Below-pop_loop :
      (s : OmisModule) (c b : Option OmisValue)
      → c ≡ s.continue_point
      → b ≡ s.break_point
      → Below s (InLoop s) (set_points c b >> pop_scope)
  Below-pop_loop s c b hc hb = record {
    at = λ t e.
        let u : OmisModule = record t { continue_point = c; break_point = b } in
        rw (pop_scope-eq s u e.parents)
          (kept (left_scope-Run s u hb hc (Grows-trans e.grows (Grows-of refl refl refl))));
  }

  -- Entering it.
  pub Steady-push :
      {A : Type 0} (f : Option OmisValue) (m : M A)
      → ((s : OmisModule) → Below s (Entered s) m)
      → Steady (push_scope f >> m)
  unfolding push_scope
  Steady-push f m h = record {
    at = λ s. (h s).at (pushed f s) (record {
      parents = refl;
      break_point = refl;
      continue_point = refl;
      grows = Grows-of refl refl refl;
    });
  }

  pub Outcome-cases :
      {A : Type 0} (r : Outcome OmisModule A)
      → ((a : A) × (t : OmisModule) × (r ≡ done a t))
        ⊎ ((t : OmisModule) × (r ≡ null t))
        ⊎ ((e : Fault) × (r ≡ failed e))
  Outcome-cases (done a t) = inl (a, t, refl)
  Outcome-cases (null t) = inr (inl (t, refl))
  Outcome-cases (failed e) = inr (inr (e, refl))

  pub both-Steady : {A C : Type 0} (m : M A) (n : M C) → Steady m → Steady n → Steady (both m n)
  unfolding both
  both-Steady m n hm hn = record {
    at = λ s. elim (Outcome-cases (m s)) [
      | inl (a, t, e) ↦
          rw (e, nullable, ◌>>=◌)
            (elim (Outcome-cases (n t)) [
              | inl (c, u, g) ↦
                  rw (g, nullable, ◌>>=◌)
                    (kept (Run-trans (Kept-done (hm.at s) e) (Kept-done (hn.at t) g)))
              | inr (inl (u, g)) ↦ rw (g, nullable, ◌>>=◌) no_result
              | inr (inr (x, g)) ↦ rw (g, nullable, ◌>>=◌) faulted
            ])
      | inr (inl (t, e)) ↦
          rw (e, nullable, ◌>>=◌)
            (elim (Outcome-cases (n t)) [
              | inl (c, u, g) ↦ rw (g, nullable, ◌>>=◌) no_result
              | inr (inl (u, g)) ↦ rw (g, nullable, ◌>>=◌) no_result
              | inr (inr (x, g)) ↦ rw (g, nullable, ◌>>=◌) faulted
            ])
      | inr (inr (x, e)) ↦ rw (e, nullable, ◌>>=◌) faulted
    ];
  }

  -- A symbol is added, or the scope is left as it is.
  abbrev pub with_value : Bytes → OmisValue → OmisModule → OmisModule
  with_value name v s = record s { scope = record s.scope { values = (name, v) ∷ s.scope.values } }

  with_value-Run : (name : Bytes) (v : OmisValue) (s : OmisModule) → Run s (with_value name v s)
  with_value-Run name v s = record {
    restores = record {
      parents = refl;
      func = refl;
      types = refl;
      break_point = refl;
      continue_point = refl;
      new = (name, v) ∷ [];
      values = refl;
    };
    grows = Grows-of refl refl refl;
  }

  pub add_value_symbol-cases :
      (name : Bytes) (v : OmisValue) (s : OmisModule)
      → (add_value_symbol name v s ≡ null s)
        ⊎ (add_value_symbol name v s ≡ done tt (with_value name v s))
  unfolding add_value_symbol
  add_value_symbol-cases name v s = elim (Bool-cases (has_key name s.scope.values)) [
    | inl taken ↦ inl (rw (add_value_symbol, add, taken) refl)
    | inr free ↦ inr (rw (add_value_symbol, add, free) refl)
  ]

  pub add_value_symbol-Steady : (name : Bytes) (v : OmisValue) → Steady (add_value_symbol name v)
  add_value_symbol-Steady name v = record {
    at = λ s. elim (add_value_symbol-cases name v s) [
      | inl e ↦ rw e no_result
      | inr e ↦ rw e (kept (with_value-Run name v s))
    ];
  }

  pub nullable-add_value_symbol-Steady :
      (name : Bytes) (v : OmisValue) → Steady (nullable (add_value_symbol name v))
  nullable-add_value_symbol-Steady name v = record {
    at = λ s. elim (add_value_symbol-cases name v s) [
      | inl e ↦ rw (e, nullable) (kept (Run-refl s))
      | inr e ↦ rw (e, nullable) (kept (with_value-Run name v s))
    ];
  }
