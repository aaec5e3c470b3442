-- ===== src/Parser/Imports.antt =====
-- What `parse_import` and `parse_module` of src/app/parser.cxx do with imports.
use eokas_lang.Prelude.{ℕ, zero, suc, ◌≡◌, refl, ◌∙◌, []}
use eokas_lang.Token.{TokenType, same_type}
use eokas_lang.Ast.{Module}
use eokas_lang.Ast.Map.{has_key}
use eokas_lang.Parser.Source.{TokenSource, Conversions}
use eokas_lang.Parser.Monad.{Parser, done, token, next_token}
use eokas_lang.Parser.Checks.{error_export_exists}
use eokas_lang.Parser.Modules.{
  callees, parse_import, parse_export, import_entry, export_entry, module_stmt, module_entry,
  module_loop, parse_module, parse,
}
use eokas_lang.Parser.Yields.{
  Always, Always-pure, Always-null, Always-if, Always-map, Always-give_up, Always-bind,
  Always-bind_with, Yields-done,
}

module _ ⦃src : TokenSource⦄ where
  -- No call of `parse_import` returns a node.
  parse_import-never : Always (λ _. ⊥) parse_import
  unfolding parse_import
  parse_import-never = search (Always-bind, Always-null) depth 8

  abbrev SameImports : Module → Module → Type 0
  SameImports m m' = m'.imports ≡ m.imports

  import_entry-SameImports : (m : Module) → Always (SameImports m) (import_entry m)
  unfolding import_entry
  import_entry-SameImports m = Always-bind_with parse_import _ parse_import-never λ node h. absurd h

  export_entry-SameImports : (m : Module) → Always (SameImports m) (export_entry m)
  unfolding export_entry
  export_entry-SameImports m = Always-bind parse_export _ λ name.
      Always-if (has_key name m.exports) _ _
        (Always-bind (error_export_exists name) _ λ _. Always-null) (Always-pure _ refl)

module _ ⦃src : TokenSource⦄ ⦃conv : Conversions⦄ where
  module_stmt-SameImports : (fuel : ℕ) (m : Module) → Always (SameImports m) (module_stmt fuel m)
  unfolding module_stmt
  module_stmt-SameImports fuel m =
      Always-bind (callees fuel).parse_stmt _ λ stmt. Always-pure _ refl

  module_entry-SameImports :
      (fuel : ℕ) (t : TokenType) (m : Module) → Always (SameImports m) (module_entry fuel t m)
  unfolding module_entry
  module_entry-SameImports fuel TokenType.import m = import_entry-SameImports m
  module_entry-SameImports fuel TokenType.export m = export_entry-SameImports m
  module_entry-SameImports fuel _ m = module_stmt-SameImports fuel m

  module_loop-SameImports :
      (rounds fuel : ℕ) (m : Module) → Always (SameImports m) (module_loop rounds fuel m)
  unfolding module_loop
  module_loop-SameImports zero fuel m = Always-give_up
  module_loop-SameImports (suc rounds) fuel m = Always-bind token _ λ t.
      Always-if (same_type t.type TokenType.eos) _ _ (Always-pure m refl) (
        Always-bind_with (module_entry fuel t.type m) _ (module_entry-SameImports fuel t.type m)
          λ next h. Always-map (λ m' g. g ∙ h) (module_loop-SameImports rounds fuel next))

  -- A module that the parser accepts has no imports: `parse_import` returns null also where it has
  -- read an import, so no source with one is accepted.
  pub parse-imports :
      (s : src.State) (m : Module) (p : Parser) → parse s ≡ done m p → m.imports ≡ []
  unfolding parse parse_module
  parse-imports s m p e =
      Yields-done ((Always-bind next_token _ λ _. module_loop-SameImports _ _ _).at _) e
