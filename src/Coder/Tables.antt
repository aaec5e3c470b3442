-- ===== src/Coder/Tables.antt =====
-- The tables of types and values of omis_module_t over a run of src/omis/x-module-coder.cpp.
use mathlib.Core.Path.{subst}
use eokas_lang.Prelude.{false, ◌≡◌, refl, some, [], codes, Fault}
use eokas_lang.Ast.{Module}
use eokas_lang.Parser.Monad.{Outcome, done, null, failed}
use eokas_lang.Omis.Bridge.{Bridge, Handle, BasicType}
use eokas_lang.Omis.State.{OmisType, OmisModule, M, ◌>>=◌}
use eokas_lang.Omis.Objects.{find_handle}
use eokas_lang.Omis.Interned.{Interned, Grows, Grows-of, Grows-trans}
use eokas_lang.Omis.Steady.Rules.{Kept, kept, no_result, faulted, Steady}
use eokas_lang.Omis.Steady.Objects.{basic-Steady, value_func-Steady}
use eokas_lang.Omis.Steady.Instructions.{create_block-Steady, set_active_block-Steady}
use eokas_lang.Omis.Steady.Scoped.{
  Below-bind, Below-pop, Steady-push, nullable-add_value_symbol-Steady,
}
use eokas_lang.Omis.Steady.Control.{stmt_ensure_tail_ret-Steady}
use eokas_lang.Coder.Encode.{encode_module}
use eokas_lang.Coder.Steady.{encode_stmts-Steady}

module _ ⦃B : Bridge⦄ where
  -- If the run ends well, the tables of `s` have grown.
  data Grown {A : Type 0} (s : OmisModule) : Outcome OmisModule A → Type 0 where
    grown : {a : A} {t : OmisModule} → Grows s t → Grown s (done a t)
    no_value : {t : OmisModule} → Grown s (null t)
    stopped : {e : Fault} → Grown s (failed e)

  record Growing {A : Type 0} (m : M A) : Type 0 where
    at : (s : OmisModule) → Grown s (m s)

  Growing-of_Steady : {A : Type 0} (m : M A) → Steady m → Growing m
  Growing-of_Steady {A} m h = record { at = λ s. by_end (h.at s) }
    where
      by_end : {s : OmisModule} {r : Outcome OmisModule A} → Kept s r → Grown s r
      by_end (kept r) = grown r.grows
      by_end no_result = no_value
      by_end faulted = stopped

  Grown-from :
      {A : Type 0} {s t : OmisModule} {r : Outcome OmisModule A} → Grows s t → Grown t r → Grown s r
  Grown-from a (grown h) = grown (Grows-trans a h)
  Grown-from a no_value = no_value
  Grown-from a stopped = stopped

  Growing-bind :
      {A C : Type 0} (m : M A) (f : A → M C)
      → Steady m
      → ((a : A) → Growing (f a))
      → Growing (m >>= f)
  Growing-bind {A} {C} m f hm hf = record { at = λ s. by_end (hm.at s) }
    where
      by_end :
          {s : OmisModule} {r : Outcome OmisModule A}
          → Kept s r
          → Grown {A = C} s (elim r [ done a t ↦ f a t | null t ↦ null t | failed e ↦ failed e ])
      by_end (kept {a} {t} h) = Grown-from h.grows ((hf a).at t)
      by_end no_result = no_value
      by_end faulted = stopped

  Grown-done :
      {A : Type 0} {s t : OmisModule} {a : A} {r : Outcome OmisModule A}
      → Grown s r
      → r ≡ done a t
      → Grows s t
  Grown-done {s} (grown {t = u} h) e = subst (λ v. Grows s v) (cc) h
  Grown-done no_value e = cc
  Grown-done stopped e = cc

  encode_module-Growing : (node : Module) → Growing (encode_module node)
  unfolding encode_module
  encode_module-Growing node = Growing-bind _ _ (basic-Steady BasicType.i32) λ ret.
      Growing-bind _ _ (value_func-Steady (codes "$main") ret [] false) λ func.
        Growing-bind _ _ (nullable-add_value_symbol-Steady (codes "$main") func) λ _. record {
          at = λ s. Grown-from (Grows-of refl refl refl) (
              (Growing-of_Steady _ (
                  Steady-push (some func) _ λ s.
                    Below-bind s _ _ (create_block-Steady (codes "entry")) λ entry.
                      Below-bind s _ _ (set_active_block-Steady entry) λ _.
                        Below-bind s _ _ (encode_stmts-Steady node.body) λ _.
                          Below-bind s _ _ (stmt_ensure_tail_ret-Steady func) λ _. Below-pop s)).at
                (record s { scope = record s.scope { func = some func } }));
        }

  module _ (s t : OmisModule) where
    -- A syntax tree that is encoded to its end leaves each handle with one object, and the objects with
    -- different addresses, if it was so before.
    pub encode_module-Interned :
        (node : Module) → Interned s → encode_module node s ≡ done tt t → Interned t
    encode_module-Interned node w e = (Grown-done ((encode_module-Growing node).at s) e).interned w

    -- A type object that a handle has is still its object after a syntax tree was encoded to its end.
    pub encode_module-type :
        (node : Module) (h : Handle) (a : OmisType)
        → find_handle h s.types ≡ some a
        → encode_module node s ≡ done tt t
        → find_handle h t.types ≡ some a
    encode_module-type node h a f e =
        (Grown-done ((encode_module-Growing node).at s) e).type_kept h a f
