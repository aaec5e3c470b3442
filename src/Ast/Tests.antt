-- ===== src/Ast/Tests.antt =====
-- The theorem of ast_scope_t at a scope that has the name already.
use eokas_lang.Prelude.{◌≡◌, none, some, true, [], ◌∷◌, codes}
use eokas_lang.Ast.{Stmt}
use eokas_lang.Ast.Scopes.{AstScope, find_def, get_symbol, set_symbol, set_symbol-get_symbol}

abbrev scope : AstScope
scope = record { func = none; symbols = (codes "x", Stmt.break) ∷ [] }

set_symbol-get_symbol_example :
    get_symbol (codes "x") true (set_symbol (codes "x") Stmt.continue scope) []
    ≡ elim (find_def (codes "x") scope.symbols) [ some d ↦ some d | none ↦ some Stmt.continue ]
set_symbol-get_symbol_example = set_symbol-get_symbol (codes "x") Stmt.continue true scope []
