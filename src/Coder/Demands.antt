-- ===== src/Coder/Demands.antt =====
-- What a run of the code generator shows of the syntax tree, in a module whose scopes name no types.
use mathlib.Core.Path.{subst}
use eokas_lang.Prelude.{
  ◌≡◌, refl, ◌∙◌, sym, Bool, true, false, Option, none, some, List, [], ◌∷◌, Fault, if◌then◌else◌,
}
use eokas_lang.Parser.Monad.{Outcome, done, null, failed}
use eokas_lang.Omis.Bridge.{Bridge}
use eokas_lang.Omis.State.{OmisValue, OmisModule, Scope, M, ◌>>=◌, ◌>>◌, return_null, modify}
use eokas_lang.Omis.Scopes.{push_scope}
use eokas_lang.Omis.Steady.Rules.{Run, Kept, kept, no_result, faulted, Steady}
use eokas_lang.Omis.Steady.Scoped.{pushed}

abbrev pub AllUntyped : List Scope → Type 0
AllUntyped [] = Unit
AllUntyped (c ∷ cs) = (c.types ≡ []) × AllUntyped cs

module _ ⦃B : Bridge⦄ where
  -- No scope of the module names a type.
  abbrev pub Untyped : OmisModule → Type 0
  Untyped s = (s.scope.types ≡ []) × AllUntyped s.parents

  pub Untyped-run : {s t : OmisModule} → Run s t → Untyped s → Untyped t
  Untyped-run r (h, g) = (r.restores.types ∙ h, subst AllUntyped (sym r.restores.parents) g)

  -- No scope of the module names a type, and outside of loops there are no targets of `break` and
  -- `continue`.
  abbrev pub Ready : Bool → OmisModule → Type 0
  Ready true s = Untyped s
  Ready false s = Untyped s × ((s.break_point ≡ none) × (s.continue_point ≡ none))

  pub Ready-run : (in_loop : Bool) {s t : OmisModule} → Run s t → Ready in_loop s → Ready in_loop t
  Ready-run true r u = Untyped-run r u
  Ready-run false r (u, (p, q)) =
      (Untyped-run r u, (r.restores.break_point ∙ p, r.restores.continue_point ∙ q))

  -- Inside of a loop no targets are asked for.
  pub Ready-inside : (in_loop : Bool) (s : OmisModule) → Ready in_loop s → Ready true s
  Ready-inside true s u = u
  Ready-inside false s (u, p) = u

  -- If the run ends well, `P` holds.
  pub data Shows {A : Type 0} (P : Type 0) : Outcome OmisModule A → Type 0 where
    shows : {a : A} {t : OmisModule} → P → Shows P (done a t)
    nothing : {t : OmisModule} → Shows P (null t)
    faults : {e : Fault} → Shows P (failed e)

  pub Shows-done :
      {A P : Type 0} {a : A} {t : OmisModule} {r : Outcome OmisModule A}
      → Shows P r
      → r ≡ done a t
      → P
  Shows-done (shows p) e = p
  Shows-done nothing e = cc
  Shows-done faults e = cc

  -- Every run of `m` in a module that is ready shows `P`.
  pub record Demands {A : Type 0} (in_loop : Bool) (P : Type 0) (m : M A) : Type 0 where
    pub at : (s : OmisModule) → Ready in_loop s → Shows P (m s)

  -- What the code of a part that may be missing demands.
  abbrev pub MaybeDemands : {A : Type 0} → Bool → Type 0 → Option (M A) → Type 0
  MaybeDemands in_loop P none = P
  MaybeDemands in_loop P (some m) = Demands in_loop P m

  pushed-Ready :
      (in_loop : Bool) (f : Option OmisValue) (s : OmisModule)
      → Ready in_loop s
      → Ready in_loop (pushed f s)
  pushed-Ready true f s u = (refl, u)
  pushed-Ready false f s (u, p) = ((refl, u), p)

  module _ {in_loop : Bool} {P : Type 0} where
    pub Demands-all : {A : Type 0} (m : M A) → P → Demands in_loop P m
    Demands-all {A} m p = record { at = λ s u. any (m s) }
      where
        any : (r : Outcome OmisModule A) → Shows P r
        any (done a t) = shows p
        any (null t) = nothing
        any (failed e) = faults

    pub Demands-null : {A : Type 0} → Demands {A = A} in_loop P return_null
    Demands-null = record { at = λ s u. nothing }

    pub Demands-if :
        {A : Type 0} (b : Bool) (m n : M A)
        → Demands in_loop P m
        → Demands in_loop P n
        → Demands in_loop P (if b then m else n)
    Demands-if true m n hm hn = hm
    Demands-if false m n hm hn = hn

    pub Demands-option :
        {A C : Type 0} (o : Option C) (f : C → M A) (n : M A)
        → ((c : C) → Demands in_loop P (f c))
        → Demands in_loop P n
        → Demands in_loop P (elim o [ some c ↦ f c | none ↦ n ])
    Demands-option (some c) f n hf hn = hf c
    Demands-option none f n hf hn = hn

    pub Demands-map : {A Q : Type 0} {m : M A} → (Q → P) → Demands in_loop Q m → Demands in_loop P m
    Demands-map {A} {Q} f h = record { at = λ s u. by_end (h.at s u) }
      where
        by_end : {r : Outcome OmisModule A} → Shows Q r → Shows P r
        by_end (shows q) = shows (f q)
        by_end nothing = nothing
        by_end faults = faults

    module _ {A C : Type 0} where
      -- The first part demands it, or a later one.
      pub Demands-first :
          (m : M A) (f : A → M C) → Demands in_loop P m → Demands in_loop P (m >>= f)
      Demands-first m f h = record { at = λ s u. by_end (h.at s u) }
        where
          after : P → (r : Outcome OmisModule C) → Shows P r
          after p (done a t) = shows p
          after p (null t) = nothing
          after p (failed e) = faults

          by_end :
              {r : Outcome OmisModule A}
              → Shows P r
              → Shows {A = C} P
                  (elim r [ done a t ↦ f a t | null t ↦ null t | failed e ↦ failed e ])
          by_end (shows {a} {t} p) = after p (f a t)
          by_end nothing = nothing
          by_end faults = faults

      pub Demands-later :
          (m : M A) (f : A → M C)
          → Steady m
          → ((a : A) → Demands in_loop P (f a))
          → Demands in_loop P (m >>= f)
      Demands-later m f hm hf = record { at = λ s u. by_end u (hm.at s) }
        where
          by_end :
              {s : OmisModule} {r : Outcome OmisModule A}
              → Ready in_loop s
              → Kept s r
              → Shows {A = C} P
                  (elim r [ done a t ↦ f a t | null t ↦ null t | failed e ↦ failed e ])
          by_end u (kept {a} {t} h) = (hf a).at t (Ready-run in_loop h u)
          by_end u no_result = nothing
          by_end u faulted = faults

    pub Demands-push :
        {A : Type 0} (f : Option OmisValue) (m : M A)
        → Demands in_loop P m
        → Demands in_loop P (push_scope f >> m)
    unfolding push_scope
    Demands-push f m h = record { at = λ s u. h.at (pushed f s) (pushed-Ready in_loop f s u) }

    pub Demands-modify :
        {A : Type 0} {inner : Bool} (f : OmisModule → OmisModule) (m : M A)
        → ((s : OmisModule) → Ready in_loop s → Ready inner (f s))
        → Demands inner P m
        → Demands in_loop P (modify f >> m)
    Demands-modify f m keep h = record { at = λ s u. h.at (f s) (keep s u) }

  pub Demands-and :
      {in_loop : Bool} {A P Q : Type 0} {m : M A}
      → Demands in_loop P m
      → Demands in_loop Q m
      → Demands in_loop (P × Q) m
  Demands-and {in_loop} {A} {P} {Q} a b = record { at = λ s u. join (a.at s u) (b.at s u) }
    where
      join : {r : Outcome OmisModule A} → Shows P r → Shows Q r → Shows (P × Q) r
      join (shows p) (shows q) = shows (p, q)
      join nothing k = nothing
      join faults k = faults
