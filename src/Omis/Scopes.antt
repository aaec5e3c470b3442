-- ===== src/Omis/Scopes.antt =====
-- src/omis/model.cpp, src/omis/model.h: the tables of symbols, and the scopes of a module.
use eokas_lang.Prelude.{
  ℕ, Bool, false, Option, none, some, List, [], ◌∷◌, ◌++◌, ◌==◌, ◌||◌, Bytes, bytes_eq,
  if◌then◌else◌,
}
use eokas_lang.Ast.Map.{has_key}
use eokas_lang.Parser.Monad.{done, null}
use eokas_lang.Omis.Bridge.{Bridge}
use eokas_lang.Omis.State.{OmisType, OmisValue, Scope, OmisModule, M, modify}

module _ {ℓ} {T : Type ℓ} where
  -- omis_table_t::get
  unfoldable pub get : Bytes → List (Bytes × T) → Option T
  get name [] = none
  get name ((k, v) ∷ rest) = if bytes_eq k name then some v else get name rest

  -- omis_table_t::add: the table as it was and `false`, where the name is taken
  unfoldable pub add : Bytes → T → List (Bytes × T) → Option (List (Bytes × T))
  add name object table = if has_key name table then none else some ((name, object) ∷ table)

  -- The loop of `get_type_symbol` and `get_value_symbol` from a scope outwards: the first table
  -- that has the name, and what `mark` tells of its scope.
  unfoldable pub look_up : (Scope → List (Bytes × T)) → Bytes → List Scope → Option (T × Scope)
  unfolding get
  look_up table name [] = none
  look_up table name (s ∷ outer) = elim (get name (table s)) [
    | some v ↦ some (v, s)
    | none ↦ look_up table name outer
  ]

  -- `lookup ? <the loop> : this->table.get(name)`
  unfoldable pub find_symbol :
      (Scope → List (Bytes × T)) → Bytes → Bool → Scope → List Scope → Option (T × Scope)
  unfolding look_up
  find_symbol table name lookup scope parents =
      look_up table name (if lookup then scope ∷ parents else scope ∷ [])

-- omis_value_symbol_t, and what is read of its scope
pub record ValueSymbol : Type 0 where
  pub name : Bytes
  pub value : OmisValue
  pub func : Option OmisValue

module _ ⦃B : Bridge⦄ where
  -- omis_scope_t::get_type_symbol
  unfoldable pub get_type_symbol : Bytes → Bool → M (Option OmisType)
  unfolding find_symbol
  get_type_symbol name lookup s =
      done
        (elim (find_symbol (λ (c : Scope). c.types) name lookup s.scope s.parents) [
          | some (t, c) ↦ some t
          | none ↦ none
        ])
        s

  -- omis_scope_t::add_type_symbol
  unfoldable pub add_type_symbol : Bytes → OmisType → M (Unit {0})
  unfolding add
  add_type_symbol name type s = elim (add name type s.scope.types) [
    | some table ↦ done tt (record s { scope = record s.scope { types = table } })
    | none ↦ null s
  ]

  -- omis_scope_t::get_value_symbol
  unfoldable pub get_value_symbol : Bytes → Bool → M (Option ValueSymbol)
  unfolding find_symbol
  get_value_symbol name lookup s =
      done
        (elim (find_symbol (λ (c : Scope). c.values) name lookup s.scope s.parents) [
          | some (v, c) ↦ some (record { name = name; value = v; func = c.func })
          | none ↦ none
        ])
        s

  -- omis_scope_t::add_value_symbol
  unfoldable pub add_value_symbol : Bytes → OmisValue → M (Unit {0})
  unfolding add
  add_value_symbol name value s = elim (add name value s.scope.values) [
    | some table ↦ done tt (record s { scope = record s.scope { values = table } })
    | none ↦ null s
  ]

  -- omis_scope_t::add_child, on the current scope
  abbrev pub child : Option OmisValue → Scope → Scope
  child f parent = record {
    func = elim f [ some v ↦ some v | none ↦ parent.func ];
    types = [];
    values = [];
  }

  -- omis_module_t::push_scope. This and pop_scope are declared to return a scope and have no return statement; no
  -- caller uses a result of theirs, and the change of the scopes is all that is modelled.
  unfoldable pub push_scope : Option OmisValue → M (Unit {0})
  push_scope f = modify λ s. record s { scope = child f s.scope; parents = s.scope ∷ s.parents }

  abbrev leave : List Scope → OmisModule → OmisModule
  leave [] s = s
  leave (outer ∷ rest) s = record s { scope = outer; parents = rest }

  -- omis_module_t::pop_scope: the root stays
  unfoldable pub pop_scope : M (Unit {0})
  pop_scope = modify λ s. leave s.parents s

  abbrev mem_id : ℕ → List ℕ → Bool
  mem_id other [] = false
  mem_id other (m ∷ ms) = m == other || mem_id other ms

  -- omis_module_t::using_module, on the address of a module
  unfoldable pub using_module : ℕ → M (Unit {0})
  using_module other s =
      if mem_id other s.usings
      then null s
      else done tt (record s { usings = s.usings ++ (other ∷ []) })
