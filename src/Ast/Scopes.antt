-- ===== src/Ast/Scopes.antt =====
-- src/ast/object.h: `ast_scope_t`, as the scope and those that enclose it, innermost first.
use eokas_lang.Prelude.{
  ◌≡◌, refl, Bool, true, false, Option, none, some, List, [], ◌∷◌, Bytes, bytes_eq, bytes_eq_refl,
  Option-cases, inl, inr, if◌then◌else◌,
}
use eokas_lang.Ast.{Expr, Stmt}

-- ast_scope_t, without its links
pub record AstScope : Type 0 where
  pub func : Option Expr
  pub symbols : List (Bytes × Stmt)

-- `symbols.find(name)`
unfoldable pub find_def : Bytes → List (Bytes × Stmt) → Option Stmt
find_def name [] = none
find_def name ((k, d) ∷ rest) = if bytes_eq k name then some d else find_def name rest

-- ast_scope_t::add_child
unfoldable pub add_child : Option Expr → AstScope → List AstScope → List AstScope
add_child func scope outer =
    record { func = elim func [ some f ↦ some f | none ↦ scope.func ]; symbols = [] }
    ∷ (scope ∷ outer)

-- The loop of get_symbol.
unfoldable pub find_outwards : Bytes → List AstScope → Option Stmt
unfolding find_def
find_outwards name [] = none
find_outwards name (s ∷ outer) = elim (find_def name s.symbols) [
  | some d ↦ some d
  | none ↦ find_outwards name outer
]

-- ast_scope_t::get_symbol
unfoldable pub get_symbol : Bytes → Bool → AstScope → List AstScope → Option Stmt
get_symbol name lookup scope outer =
    if lookup then find_outwards name (scope ∷ outer) else find_def name scope.symbols

-- ast_scope_t::set_symbol: `insert` leaves an entry that is there
unfoldable pub set_symbol : Bytes → Stmt → AstScope → AstScope
unfolding find_def
set_symbol name symbol scope = elim (find_def name scope.symbols) [
  | some d ↦ scope
  | none ↦ record scope { symbols = (name, symbol) ∷ scope.symbols }
]

-- After set_symbol the name is found in that scope, whether the enclosing ones are looked up or not: the first
-- definition that was set there, and the new one only where there was none.
pub set_symbol-get_symbol :
    (name : Bytes) (symbol : Stmt) (lookup : Bool) (scope : AstScope) (outer : List AstScope)
    → get_symbol name lookup (set_symbol name symbol scope) outer
      ≡ elim (find_def name scope.symbols) [ some d ↦ some d | none ↦ some symbol ]
unfolding set_symbol get_symbol find_outwards find_def
set_symbol-get_symbol name symbol true scope outer =
    elim (Option-cases (find_def name scope.symbols)) [
      | inl e ↦ rw (get_symbol, set_symbol, e, find_outwards, find_def, bytes_eq_refl name) refl
      | inr (d, e) ↦ rw (get_symbol, set_symbol, e, find_outwards, e) refl
    ]
set_symbol-get_symbol name symbol false scope outer =
    elim (Option-cases (find_def name scope.symbols)) [
      | inl e ↦ rw (get_symbol, set_symbol, e, find_def, bytes_eq_refl name) refl
      | inr (d, e) ↦ rw (get_symbol, set_symbol, e, e) refl
    ]
