-- ===== src/Omis/Symbols.antt =====
-- The symbols of a module: what a look-up finds after a definition, and after a block.
use mathlib.Core.Path.{subst}
use eokas_lang.Prelude.{
  ◌≡◌, refl, sym, ap, Bool, true, false, Option, none, some, List, [], ◌∷◌, ◌++◌, Bytes, Fault,
  bytes_eq, bytes_eq_refl, Bool-cases, Option-cases, inl, inr, if◌then◌else◌,
}
use eokas_lang.Parser.Monad.{Outcome, done, null, failed}
use eokas_lang.Omis.Bridge.{Bridge, BasicType}
use eokas_lang.Omis.State.{OmisType, OmisValue, OmisModule, Scope, M, ◌>>=◌, return_null}
use eokas_lang.Omis.Scopes.{
  get, look_up, find_symbol, get_value_symbol, add_value_symbol, push_scope, pop_scope,
}
use eokas_lang.Omis.Control.{stmt_block, stmt_symbol_def, declared_type, symbol_type}
use eokas_lang.Omis.Objects.{basic, equals_type}
use eokas_lang.Omis.Instructions.{alloc, get_ptr_val}
use eokas_lang.Omis.Steady.Rules.{Kept, kept, no_result, faulted, Steady}
use eokas_lang.Omis.Steady.Scoped.{pushed, add_value_symbol-cases, pop_scope-eq, left_scope}

module _ {T : Type 0} where
  -- All entries that can be seen from a scope, the innermost first.
  abbrev pub visible : (Scope → List (Bytes × T)) → List Scope → List (Bytes × T)
  visible table [] = []
  visible table (s ∷ outer) = table s ++ visible table outer

  abbrev pub symbol_of : Option (T × Scope) → Option T
  symbol_of none = none
  symbol_of (some (v, s)) = some v

  pub get-append :
      (name : Bytes) (xs ys : List (Bytes × T))
      → get name (xs ++ ys) ≡ elim (get name xs) [ some v ↦ some v | none ↦ get name ys ]
  unfolding get
  get-append name [] ys = refl
  get-append name ((k, v) ∷ rest) ys = elim (Bool-cases (bytes_eq k name)) [
    | inl q ↦ rw q refl
    | inr q ↦ rw (q, get-append name rest ys) refl
  ]

  -- The walk over the scopes finds the first entry of the name among all that can be seen.
  look_up-visible :
      (table : Scope → List (Bytes × T)) (name : Bytes) (scopes : List Scope)
      → symbol_of (look_up table name scopes) ≡ get name (visible table scopes)
  unfolding look_up
  look_up-visible table name [] = refl
  look_up-visible table name (s ∷ outer) = elim (Option-cases (get name (table s))) [
    | inl e ↦
        rw (look_up, get-append name (table s) (visible table outer), e)
          (look_up-visible table name outer)
    | inr (v, e) ↦ rw (look_up, get-append name (table s) (visible table outer), e) refl
  ]

  -- A look-up finds what the tables of the scopes that it may ask hold, read as one table with the inner
  -- scopes first: the current scope's alone, or those of the enclosing ones after it.
  pub find_symbol-visible :
      (table : Scope → List (Bytes × T)) (name : Bytes) (lookup : Bool) (scope : Scope)
      (parents : List Scope)
      → symbol_of (find_symbol table name lookup scope parents)
        ≡ get name (table scope ++ (if lookup then visible table parents else []))
  unfolding find_symbol
  find_symbol-visible table name true scope parents = look_up-visible table name (scope ∷ parents)
  find_symbol-visible table name false scope parents = look_up-visible table name (scope ∷ [])

module _ ⦃B : Bridge⦄ where
  -- If the run ends well, its last state satisfies `Q`.
  pub data Left {A : Type 0} (Q : OmisModule → Type 0) : Outcome OmisModule A → Type 0 where
    left : {a : A} {t : OmisModule} → Q t → Left Q (done a t)
    left_none : {t : OmisModule} → Left Q (null t)
    left_fault : {e : Fault} → Left Q (failed e)

  pub Left-done :
      {A : Type 0} {Q : OmisModule → Type 0} {a : A} {t : OmisModule} {r : Outcome OmisModule A}
      → Left Q r
      → r ≡ done a t
      → Q t
  Left-done {Q} (left {t = u} h) e = subst Q (cc) h
  Left-done left_none e = cc
  Left-done left_fault e = cc

  pub record Leaves {A : Type 0} (Q : OmisModule → Type 0) (m : M A) : Type 0 where
    pub at : (s : OmisModule) → Left Q (m s)

  module _ {A : Type 0} {Q : OmisModule → Type 0} where
    Leaves-null : Leaves {A = A} Q return_null
    Leaves-null = record { at = λ s. left_none }

    Leaves-if : (b : Bool) (m n : M A) → Leaves Q m → Leaves Q n → Leaves Q (if b then m else n)
    Leaves-if true m n hm hn = hm
    Leaves-if false m n hm hn = hn

    Leaves-option :
        {C : Type 0} (o : Option C) (f : C → M A) (n : M A)
        → ((c : C) → Leaves Q (f c))
        → Leaves Q n
        → Leaves Q (elim o [ some c ↦ f c | none ↦ n ])
    Leaves-option (some c) f n hf hn = hf c
    Leaves-option none f n hf hn = hn

  -- The last part decides.
  pub Leaves-last :
      {A C : Type 0} {Q : OmisModule → Type 0} (m : M A) (f : A → M C)
      → ((a : A) → Leaves Q (f a))
      → Leaves Q (m >>= f)
  Leaves-last {A} {C} {Q} m f h = record { at = λ s. by_end (m s) }
    where
      by_end :
          (r : Outcome OmisModule A)
          → Left {A = C} Q (elim r [ done a t ↦ f a t | null t ↦ null t | failed e ↦ failed e ])
      by_end (done a t) = (h a).at t
      by_end (null t) = left_none
      by_end (failed e) = left_fault

  -- The current scope has a value of that name.
  abbrev pub HasValue : Bytes → OmisModule → Type 0
  HasValue name s = (v : OmisValue) × (get name s.scope.values ≡ some v)

  pub get-with_value :
      (name : Bytes) (v : OmisValue) (table : List (Bytes × OmisValue))
      → get name ((name, v) ∷ table) ≡ some v
  unfolding get
  get-with_value name v table = rw (bytes_eq_refl name) refl

  add_value_symbol-Leaves :
      (name : Bytes) (v : OmisValue) → Leaves (HasValue name) (add_value_symbol name v)
  add_value_symbol-Leaves name v = record {
    at = λ s. elim (add_value_symbol-cases name v s) [
      | inl e ↦ rw e left_none
      | inr e ↦ rw e (left (v, get-with_value name v s.scope.values))
    ];
  }

  stmt_symbol_def-Leaves :
      (name : Bytes) (type : Option (M OmisType)) (expr : M OmisValue)
      → Leaves (HasValue name) (stmt_symbol_def name type expr)
  unfolding stmt_symbol_def
  stmt_symbol_def-Leaves name type expr = Leaves-last (get_value_symbol name false) _ λ found.
      Leaves-option found _ _ (λ _. Leaves-null)
        (Leaves-last (declared_type type) _ λ dtype. Leaves-last expr _ λ e.
          Leaves-last (get_ptr_val e) _ λ value.
            Leaves-last (symbol_type dtype value.type) _ λ stype.
              Leaves-last (basic BasicType.void) _ λ void.
                Leaves-if (equals_type stype void) _ _ Leaves-null (
                  Leaves-last (alloc name stype (some value)) _
                    λ symbol. add_value_symbol-Leaves name symbol))

  value_found :
      (name : Bytes) (v : OmisValue) (lookup : Bool) (s : OmisModule)
      → get name s.scope.values ≡ some v
      → get_value_symbol name lookup s
        ≡ done (some (record { name = name; value = v; func = s.scope.func })) s
  unfolding get_value_symbol find_symbol look_up
  value_found name v true s e = rw (get_value_symbol, find_symbol, look_up, e) refl
  value_found name v false s e = rw (get_value_symbol, find_symbol, look_up, e) refl

  -- A definition in a scope that has a value of that name is refused, and its parts are not run.
  taken-null :
      (name : Bytes) (v : OmisValue) (type : Option (M OmisType)) (expr : M OmisValue)
      (s : OmisModule)
      → get name s.scope.values ≡ some v
      → stmt_symbol_def name type expr s ≡ null s
  unfolding stmt_symbol_def
  taken-null name v type expr s e = rw (stmt_symbol_def, ◌>>=◌, value_found name v false s e) refl

  -- After a definition that ends well, the name is found, and a further definition of it in the same scope is
  -- refused, and its parts are not run.
  pub stmt_symbol_def-once :
      (name : Bytes) (type type' : Option (M OmisType)) (expr expr' : M OmisValue)
      (s t : OmisModule)
      → stmt_symbol_def name type expr s ≡ done tt t
      → ((v : OmisValue) × (get_value_symbol name true t
            ≡ done (some (record { name = name; value = v; func = t.scope.func })) t))
        × (stmt_symbol_def name type' expr' t ≡ null t)
  stmt_symbol_def-once name type type' expr expr' s t e =
      let (v, found) = Left-done ((stmt_symbol_def-Leaves name type expr).at s) e in
      ((v, value_found name v true t found), taken-null name v type' expr' t found)

  -- After a block that ends well, the scopes are those from before it: what was defined in it is not found
  -- any more, and what it hid is found again.
  pub stmt_block-scopes :
      (body : M (Unit {0})) (s t : OmisModule)
      → Steady body
      → stmt_block body s ≡ done tt t
      → (t.scope ≡ s.scope) × (t.parents ≡ s.parents)
  unfolding stmt_block push_scope
  stmt_block-scopes body s t h e = by_end (h.at (pushed none s)) e
    where
      by_end :
          {r : Outcome OmisModule (Unit {0})}
          → Kept (pushed none s) r
          → elim r [ done a u ↦ pop_scope u | null u ↦ null u | failed x ↦ failed x ] ≡ done tt t
          → (t.scope ≡ s.scope) × (t.parents ≡ s.parents)
      by_end (kept {t = u} r) q =
          let same : left_scope s u ≡ t = cc (pop_scope-eq s u r.restores.parents, q) in
          (
            ap (λ (m : OmisModule). m.scope) (sym same),
            ap (λ (m : OmisModule). m.parents) (sym same),
          )
      by_end no_result q = cc
      by_end faulted q = cc
