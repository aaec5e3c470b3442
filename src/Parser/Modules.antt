-- ===== src/Parser/Modules.antt =====
-- src/app/parser.cxx: modules, imports and exports, and the recursion between the methods.
use eokas_lang.Prelude.{ℕ, zero, suc, Bytes, [], none, if◌then◌else◌}
use eokas_lang.Token.{TokenType, same_type}
use eokas_lang.Ast.{Module, no_stmts}
use eokas_lang.Ast.Map.{has_key, insert}
use eokas_lang.Parser.Nodes.{push_stmt}
use eokas_lang.Parser.Source.{TokenSource, Conversions}
use eokas_lang.Parser.Monad.{
  Parser, Outcome, M, ◌>>=◌, ◌>>◌, pure, return_null, give_up, token, next_token,
}
use eokas_lang.Parser.Checks.{require, require_id, error_import_exists, error_export_exists}
use eokas_lang.Parser.Loops.{Callees}
use eokas_lang.Parser.Literals.{parse_literal_string}
use eokas_lang.Parser.Types.{parse_type}
use eokas_lang.Parser.Exprs.Operators.{parse_expr}
use eokas_lang.Parser.Stmts.Control.{parse_stmt}

module _ ⦃src : TokenSource⦄ where
  -- parser_t::parse_import: the node is made, and a null pointer returned. The parent is always the
  -- module, so its test passes.
  unfoldable pub parse_import : M (Bytes × Bytes)
  parse_import = do
    require TokenType.import
    name ← require_id
    next_token
    require TokenType.colon
    target ← parse_literal_string
    let node : Bytes × Bytes = (name, target)
    return_null

  -- parser_t::parse_export
  unfoldable pub parse_export : M Bytes
  parse_export = do require TokenType.export; name ← require_id; next_token; pure name

  -- `case IMPORT` and `case EXPORT` of parse_module
  unfoldable pub import_entry : Module → M Module
  import_entry m = do
    (name, target) ← parse_import
    if has_key name m.imports
        then (do error_import_exists name; return_null)
        else pure (record m { imports = insert name target m.imports })

  unfoldable pub export_entry : Module → M Module
  export_entry m = do
    name ← parse_export
    if has_key name m.exports
        then (do error_export_exists name; return_null)
        else pure (record m { exports = insert name tt m.exports })

module _ ⦃src : TokenSource⦄ ⦃conv : Conversions⦄ where
  -- The methods with a bound on the depth of the calls between them, and on the rounds of a loop.
  unfoldable pub callees : ℕ → Callees
  callees zero = record {
    parse_type = give_up;
    parse_expr = give_up;
    parse_stmt = give_up;
    rounds = 0;
  }
  callees (suc fuel) =
      let self = callees fuel in
      record {
        parse_type = parse_type self;
        parse_expr = parse_expr self;
        parse_stmt = parse_stmt self;
        rounds = suc fuel;
      }

  unfoldable pub module_stmt : ℕ → Module → M Module
  module_stmt fuel m = do
    stmt ← (callees fuel).parse_stmt
    pure (record m { body = push_stmt m.body stmt })

  -- A round of the loop of `parse_module`.
  unfoldable pub module_entry : ℕ → TokenType → Module → M Module
  module_entry fuel TokenType.import m = import_entry m
  module_entry fuel TokenType.export m = export_entry m
  module_entry fuel _ m = module_stmt fuel m

  -- The loop of `parse_module`.
  unfoldable pub module_loop : ℕ → ℕ → Module → M Module
  module_loop zero fuel m = give_up
  module_loop (suc rounds) fuel m = do
    t ← token
    if same_type t.type TokenType.eos
        then pure m
        else (do next ← module_entry fuel t.type m; module_loop rounds fuel next)

  -- parser_t::parse_module
  unfoldable pub parse_module : ℕ → M Module
  parse_module fuel = module_loop fuel fuel (record { imports = []; exports = []; body = no_stmts })

  -- parser_t::parse, on a scanner that `ready` has set: `left` bounds the fuel that is needed.
  unfoldable pub parse : src.State → Outcome Parser Module
  parse s =
      (do next_token; parse_module (suc (src.left s))) (record { scanner = s; errormsg = none })
