-- ===== src/Omis/Declared.antt =====
-- The symbols of a module after omis_module_cstd_t::main of src/omis/x-module-cstd.cpp.
use eokas_lang.Prelude.{
  ◌≡◌, refl, sym, ap, ◌∙◌, Bool, true, some, List, [], ◌∷◌, Bytes, codes, bytes_eq, Bool-cases,
  Option-cases, inl, inr,
}
use eokas_lang.Ast.Map.{has_key}
use eokas_lang.Parser.Monad.{Outcome, done, null, failed}
use eokas_lang.Omis.Bridge.{Bridge, BasicType}
use eokas_lang.Omis.State.{OmisValue, OmisModule, M, ◌>>=◌, nullable}
use eokas_lang.Omis.Scopes.{get, add, add_value_symbol}
use eokas_lang.Omis.Objects.{basic, value_func}
use eokas_lang.Omis.Steady.Rules.{
  Run, Kept, kept, no_result, faulted, Steady, Steady-bind, Steady-pure,
}
use eokas_lang.Omis.Steady.Objects.{basic-Steady, value_func-Steady}
use eokas_lang.Omis.Steady.Scoped.{nullable-add_value_symbol-Steady}
use eokas_lang.Omis.Symbols.{
  Left, left, left_none, left_fault, Left-done, Leaves, Leaves-last, HasValue, get-append,
  get-with_value,
}
use eokas_lang.Omis.Cstd.{basics, declare, printf, sprintf, malloc, free, cstd_main}
use eokas_lang.Omis.Answers.{IsAnswering, cstd_main-Answers}

has_key-get :
    {T : Type 0} (name : Bytes) (table : List (Bytes × T))
    → has_key name table ≡ true
    → (v : T) × (get name table ≡ some v)
unfolding get has_key
has_key-get name [] e = cc
has_key-get name ((k, v) ∷ rest) e = elim (Bool-cases (bytes_eq k name)) [
  | inl q ↦ (v, rw q refl)
  | inr q ↦ let (w, f) = has_key-get name rest (sym (rw q refl) ∙ e) in (w, rw q f)
]

module _ ⦃B : Bridge⦄ where
  -- A value that is there stays there, or is hidden by another.
  HasValue-run : (name : Bytes) (s t : OmisModule) → Run s t → HasValue name s → HasValue name t
  HasValue-run name s t r (v, e) = elim (Option-cases (get name r.restores.new)) [
    | inl f ↦ (
      v,
      ap (get name) r.restores.values ∙ rw (get-append name r.restores.new s.scope.values, f) e,
    )
    | inr (w, f) ↦ (
      w,
      ap (get name) r.restores.values ∙ rw (get-append name r.restores.new s.scope.values, f) refl,
    )
  ]

  add_value_symbol-HasValue :
      (name : Bytes) (v : OmisValue) → Leaves (HasValue name) (nullable (add_value_symbol name v))
  unfolding add_value_symbol
  add_value_symbol-HasValue name v = record {
    at = λ s. elim (Bool-cases (has_key name s.scope.values)) [
      | inl taken ↦
          rw (nullable, add_value_symbol, add, taken) (left (has_key-get name s.scope.values taken))
      | inr free ↦
          rw (nullable, add_value_symbol, add, free)
            (left (v, get-with_value name v s.scope.values))
    ];
  }

  -- What one part leaves, the rest keeps.
  Leaves-first :
      {A C : Type 0} (name : Bytes) (m : M A) (f : A → M C)
      → Leaves (HasValue name) m
      → ((a : A) → Steady (f a))
      → Leaves (HasValue name) (m >>= f)
  Leaves-first {A} {C} name m f h hf = record { at = λ s. by_end (h.at s) }
    where
      after :
          (t : OmisModule)
          → HasValue name t
          → {r : Outcome OmisModule C} → Kept t r
          → Left (HasValue name) r
      after t p (kept {t = u} r) = left (HasValue-run name t u r p)
      after t p no_result = left_none
      after t p faulted = left_fault

      by_end :
          {r : Outcome OmisModule A}
          → Left (HasValue name) r
          → Left {A = C}
              (HasValue name)
              (elim r [ done a t ↦ f a t | null t ↦ null t | failed e ↦ failed e ])
      by_end (left {a} {t} p) = after t p ((hf a).at t)
      by_end left_none = left_none
      by_end left_fault = left_fault

  basics-Steady : (bs : List BasicType) → Steady (basics bs)
  unfolding basics
  basics-Steady [] = Steady-pure []
  basics-Steady (b ∷ rest) =
      Steady-bind _ _ (basic-Steady b)
        λ t. Steady-bind _ _ (basics-Steady rest) λ ts. Steady-pure (t ∷ ts)

  module _ (name : Bytes) (ret : BasicType) (args : List BasicType) (varg : Bool) where
    declare-Steady : Steady (declare name ret args varg)
    unfolding declare
    declare-Steady = Steady-bind _ _ (basic-Steady ret) λ type.
        Steady-bind _ _ (basics-Steady args) λ types.
          Steady-bind _ _ (value_func-Steady name type types varg)
            λ func. Steady-bind _ _ (nullable-add_value_symbol-Steady name func) λ _. Steady-pure tt

    declare-HasValue : Leaves (HasValue name) (declare name ret args varg)
    unfolding declare
    declare-HasValue = Leaves-last (basic ret) _ λ type. Leaves-last (basics args) _ λ types.
        Leaves-last (value_func name type types varg) _
          λ func. Leaves-first name _ _ (add_value_symbol-HasValue name func) λ _. Steady-pure tt

  main_printf : Leaves (HasValue (codes "printf")) cstd_main
  unfolding cstd_main
  main_printf =
      Leaves-first (codes "printf") printf _ (declare-HasValue _ _ _ _)
        λ _. search (Steady-bind, declare-Steady) depth 10

  main_sprintf : Leaves (HasValue (codes "sprintf")) cstd_main
  unfolding cstd_main
  main_sprintf = Leaves-last printf _ λ _.
      Leaves-first (codes "sprintf") sprintf _ (declare-HasValue _ _ _ _)
        λ _. search (Steady-bind, declare-Steady) depth 10

  main_malloc : Leaves (HasValue (codes "malloc")) cstd_main
  unfolding cstd_main
  main_malloc = Leaves-last printf _ λ _. Leaves-last sprintf _ λ _.
      Leaves-first (codes "malloc") malloc _ (declare-HasValue _ _ _ _)
        λ _. search (Steady-bind, declare-Steady) depth 10

  main_free : Leaves (HasValue (codes "free")) cstd_main
  unfolding cstd_main
  main_free = Leaves-last printf _ λ _. Leaves-last sprintf _ λ _. Leaves-last malloc _ λ _.
      Leaves-first (codes "free") free _ (declare-HasValue _ _ _ _)
        λ _. search (Steady-bind, declare-Steady) depth 10

  main_strlen : Leaves (HasValue (codes "strlen")) cstd_main
  unfolding cstd_main
  main_strlen = Leaves-last printf _ λ _.
      Leaves-last sprintf _
        λ _. Leaves-last malloc _ λ _. Leaves-last free _ λ _. declare-HasValue _ _ _ _

  -- Over a bridge that answers, omis_module_cstd_t::main ends well on every module, and leaves a value of each of the five names in the
  -- current scope.
  pub cstd_main-HasValue :
      IsAnswering B
      → (s : OmisModule)
      → (t : OmisModule) × ((cstd_main s ≡ done tt t)
          × (HasValue (codes "printf") t
              × (HasValue (codes "sprintf") t
                  × (HasValue (codes "malloc") t
                      × (HasValue (codes "free") t × HasValue (codes "strlen") t)))))
  cstd_main-HasValue answering s =
      let (u, (t, e)) = (cstd_main-Answers answering).at s in
      (
        t,
        (
          e,
          (
            Left-done (main_printf.at s) e,
            (
              Left-done (main_sprintf.at s) e,
              (
                Left-done (main_malloc.at s) e,
                (Left-done (main_free.at s) e, Left-done (main_strlen.at s) e),
              ),
            ),
          ),
        ),
      )
