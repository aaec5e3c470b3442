-- ===== src/Parser/Bounded/Modules.antt =====
-- Modules of src/app/parser.cxx, and the recursion between its methods, within the tokens left.
use eokas_lang.Prelude.{ℕ, zero, suc, ◌≤◌, ◌≢◌, refl, arith, none, overread, out_of_fuel}
use eokas_lang.Token.{TokenType, same_type}
use eokas_lang.Ast.{Module}
use eokas_lang.Parser.Source.{TokenSource, Conversions}
use eokas_lang.Parser.Monad.{Parser, M, ◌>>=◌, ◌>>◌, Outcome}
use eokas_lang.Parser.Checks.{error_import_exists, error_export_exists}
use eokas_lang.Parser.Literals.{parse_literal_string}
use eokas_lang.Parser.Modules.{
  parse_import, parse_export, import_entry, export_entry, callees, module_stmt, module_entry,
  module_loop, parse_module, parse,
}
use eokas_lang.Parser.Bounded.Rules.{
  Within, Within-weaken, done, null, crashed, Keeps, Consumes, Keeps-bind, Keeps-pure, Keeps-if,
  Keeps-of_consumes, Consumes-below, Consumes-bind, Consumes-bind_first, next_token-eq_done,
}
use eokas_lang.Parser.Bounded.Checks.{Keeps-token, Consumes-require}
use eokas_lang.Parser.Bounded.Loops.{IsBounded, Keeps-zero}
use eokas_lang.Parser.Bounded.Types.{keeps_rules, parse_type-Consumes}
use eokas_lang.Parser.Bounded.Operators.{parse_literal_string-Consumes, parse_expr-Consumes}
use eokas_lang.Parser.Bounded.Stmts.{parse_stmt-Consumes}

module _ ⦃src : TokenSource⦄ {n : ℕ} where
  string_kept : Keeps n parse_literal_string
  string_kept = Keeps-of_consumes parse_literal_string parse_literal_string-Consumes

  parse_import-Consumes : Consumes n parse_import
  unfolding parse_import
  parse_import-Consumes =
      Consumes-bind_first _ _ (Consumes-require TokenType.import refl)
        λ _. search (keeps_rules, string_kept) depth 8

  parse_export-Consumes : Consumes n parse_export
  unfolding parse_export
  parse_export-Consumes =
      Consumes-bind_first _ _ (Consumes-require TokenType.export refl) λ _. search keeps_rules

  import_entry-Consumes : (m : Module) → Consumes n (import_entry m)
  unfolding import_entry error_import_exists
  import_entry-Consumes m = Consumes-bind_first _ _ parse_import-Consumes λ node. search keeps_rules

  export_entry-Consumes : (m : Module) → Consumes n (export_entry m)
  unfolding export_entry error_export_exists
  export_entry-Consumes m = Consumes-bind_first _ _ parse_export-Consumes λ name. search keeps_rules

module _ ⦃src : TokenSource⦄ ⦃conv : Conversions⦄ where
  Consumes-zero : {A : Type 0} (m : M A) → Consumes zero m
  Consumes-zero m = record { at = λ p i l. absurd (omega arith) }

  -- With a fuel of `n` the methods are bounded by `n` tokens.
  callees-IsBounded : (n : ℕ) → IsBounded n (callees n)
  unfolding callees
  callees-IsBounded zero = record {
    type = Consumes-zero _;
    expr = Consumes-zero _;
    stmt = Consumes-zero _;
    rounds = omega arith;
  }
  callees-IsBounded (suc n) = record {
    type = parse_type-Consumes (callees n) (callees-IsBounded n);
    expr = parse_expr-Consumes (callees n) (callees-IsBounded n);
    stmt = parse_stmt-Consumes (callees n) (callees-IsBounded n);
    rounds = omega arith;
  }

  module_stmt-Consumes : (n : ℕ) (m : Module) → Consumes n (module_stmt n m)
  unfolding module_stmt
  module_stmt-Consumes n m = Consumes-bind_first _ _ (callees-IsBounded n).stmt λ stmt. Keeps-pure _

  module_entry-Consumes : (n : ℕ) (t : TokenType) (m : Module) → Consumes n (module_entry n t m)
  unfolding module_entry
  module_entry-Consumes n TokenType.import m = import_entry-Consumes m
  module_entry-Consumes n TokenType.export m = export_entry-Consumes m
  module_entry-Consumes n _ m = module_stmt-Consumes n m

  module_loop-Keeps :
      (rounds fuel n : ℕ) (m : Module) → n ≤ rounds → n ≤ fuel → Keeps n (module_loop rounds fuel m)
  unfolding module_loop
  module_loop-Keeps rounds fuel zero m h g = Keeps-zero _
  module_loop-Keeps zero fuel (suc n) m h g = absurd (omega arith)
  module_loop-Keeps (suc rounds) fuel (suc n) m h g = Keeps-bind _ _ Keeps-token λ t.
      Keeps-if (same_type t.type TokenType.eos) _ _ (Keeps-pure m) (
        Keeps-of_consumes _ (
          Consumes-bind (module_entry fuel t.type m) _
            (Consumes-below _ g (module_entry-Consumes fuel t.type m))
            λ next. module_loop-Keeps rounds fuel n next (omega arith) (omega arith)))

  -- From a ready scanner the parser ends, with a module or null and a scanner that is ready with at
  -- most the tokens it had, or by dereferencing a null pointer.
  pub parse-Within :
      (s : src.State) → src.IsReady s → Within (suc (src.left s)) (src.left s) (parse s)
  unfolding parse parse_module
  parse-Within s i =
      let p : Parser = record { scanner = s; errormsg = none } in
      let (q, e, r) = next_token-eq_done p i in
      rw (e, ◌>>=◌, ◌>>◌)
        (Within-weaken _ _ (omega (arith, r.fewer)) r.fewer (
          (module_loop-Keeps (suc (src.left s)) (suc (src.left s)) (suc (src.left s)) _
              (omega arith) (omega arith)).at
            q r.ready (omega (arith, r.fewer))))

  -- A run within the tokens left met no bound of the model, and read nothing behind the source.
  pub Within-ne_fault :
      {A : Type 0} {n k : ℕ} {r : Outcome Parser A}
      → Within n k r
      → (r ≢ Outcome.failed out_of_fuel) × (r ≢ Outcome.failed overread)
  Within-ne_fault (done i l) = (λ e. cc, λ e. cc)
  Within-ne_fault (null i l) = (λ e. cc, λ e. cc)
  Within-ne_fault crashed = (λ e. cc, λ e. cc)
