-- ===== src/Frontend/Tests.antt =====
-- Runs of the parser of src/app/parser.cxx over the scanner of src/app/scanner.cxx on small sources.
use eokas_lang.Prelude.{
  ℕ, ◌≡◌, ◌≢◌, refl, none, Bytes, codes, [], ◌∷◌, ◌++◌, ◌+◌, ◌*◌, ◌-◌, bytes_eq, arith, overread,
  out_of_fuel, null_deref,
}
use eokas_lang.Token.{TokenType, Token, empty_token, infer}
use eokas_lang.Scanner.State.{Scanner, cleared}
use eokas_lang.Scanner.Scan
use eokas_lang.Scanner.Scan.{scan}
use eokas_lang.Scanner.Bounded.Reads.{IsBelow}
use eokas_lang.Ast.Map.{insert, has_key}
use eokas_lang.Parser.Checks.{require, require_id, check_token}
use eokas_lang.Ast.{Module, Stmt, no_stmts, no_members}
use eokas_lang.Ast.Int.{pos}
use eokas_lang.Parser.Source.{Conversions}
use eokas_lang.Parser.Monad
use eokas_lang.Parser.Monad.{Parser, Outcome, done, failed}
use eokas_lang.Parser.Loops.{separated}
use eokas_lang.Parser.Modules.{
  parse, parse_module, module_loop, module_entry, export_entry, parse_export, callees,
}
use eokas_lang.Parser.Stmts.Definitions.{parse_stmt_struct_def}
use eokas_lang.Parser.Bounded.Rules.{Within}
use eokas_lang.Parser.Bounded.Modules.{parse-Within}
use eokas_lang.Parser.Imports.{parse-imports}
use eokas_lang.Parser.Exprs.Operators.{parse_expr_unary}
use eokas_lang.Parser.Crash.{parse_expr_unary-crash}
use eokas_lang.Parser.Structs.{parse_stmt_struct_def-members}
use eokas_lang.Frontend.{scanner_source, parse_source}
use eokas_lang.Frontend.Total.{parse_source-ends}

abbrev digits : ℕ → Bytes → ℕ
digits acc [] = acc
digits acc (c ∷ cs) = digits (acc * 10 + (c - 48)) cs

instance abbrev pub test_conversions : Conversions
test_conversions = record {
  binstr_to_value = λ text. pos 0;
  hexstr_to_value = λ text. pos 0;
  string_to_int = λ text. pos (digits 0 text);
  string_to_float = λ text. 0;
  string_to_bool = λ text. bytes_eq text (codes "true");
}

abbrev assignment : Bytes
assignment = codes "a = 1;"

parse_source-ends_example :
    (parse_source assignment ≢ failed out_of_fuel) × (parse_source assignment ≢ failed overread)
parse_source-ends_example =
    parse_source-ends assignment
      ((λ e. cc), ((λ e. cc), ((λ e. cc), ((λ e. cc), ((λ e. cc), ((λ e. cc), tt))))))

-- The scanner at the first byte of `export a`.
abbrev exporting : Scanner
exporting = record cleared {
  source = codes "export a" ++ (0 ∷ []);
  position = codes "xport a" ++ (0 ∷ []);
  current = b'e';
  column = 1;
}

-- The parser behind the end of a source.
abbrev ended : Bytes → ℕ → Parser
ended text k = record {
  scanner = record cleared {
    source = text;
    token = record { type = TokenType.eos; value = [] };
    column = k;
  };
  errormsg = none;
}

abbrev exported : Module
exported = record { imports = []; exports = (codes "a", tt) ∷ []; body = no_stmts }

parse-exporting : parse exporting ≡ done exported (ended exporting.source 9)
unfolding parse parse_module module_loop module_entry export_entry parse_export Scan.next_token scan
    infer bytes_eq require require_id check_token Monad.next_token insert has_key
parse-exporting = refl

parse-imports_example : exported.imports ≡ []
parse-imports_example = parse-imports exporting exported (ended exporting.source 9) parse-exporting

exporting-IsReady : IsBelow empty_token 9 exporting
exporting-IsReady = record {
  terminated = (
    (λ e. cc),
    ((λ e. cc), ((λ e. cc), ((λ e. cc), ((λ e. cc), ((λ e. cc), ((λ e. cc), ((λ e. cc), refl))))))),
  );
  look = refl;
  short = omega arith;
}

parse-Within_example : Within 10 9 (parse exporting)
parse-Within_example = parse-Within exporting exporting-IsReady

abbrev structure : Parser
structure = record {
  scanner = record cleared {
    position = codes " p {}" ++ (0 ∷ []);
    current = b' ';
    token = record { type = TokenType.struct; value = codes "struct" };
    column = 7;
  };
  errormsg = none;
}

abbrev closed : Stmt
closed = Stmt.struct_def (codes "p") no_members

parse_stmt_struct_def-structure :
    parse_stmt_struct_def (callees 3) structure ≡ done closed (ended [] 13)
unfolding parse_stmt_struct_def Scan.next_token scan infer bytes_eq require require_id callees
    separated check_token Monad.next_token
parse_stmt_struct_def-structure = refl

parse_stmt_struct_def-members_example : (name : Bytes) × (closed ≡ Stmt.struct_def name no_members)
parse_stmt_struct_def-members_example =
    parse_stmt_struct_def-members (callees 3) structure (ended [] 13) closed
      parse_stmt_struct_def-structure

-- The parser at `-` of `-func;`, at `func`, and at `;`.
abbrev at_token : Token → ℕ → Bytes → ℕ → Parser
at_token t c rest k = record {
  scanner = record cleared { token = t; current = c; position = rest; column = k };
  errormsg = none;
}

abbrev minus : Parser
minus =
    at_token (record { type = TokenType.sub; value = codes "-" }) b'f' (codes "unc;" ++ (0 ∷ [])) 2

abbrev behind_minus : Parser
behind_minus = at_token (record { type = TokenType.func; value = codes "func" }) b';' (0 ∷ []) 6

abbrev behind_func : Parser
behind_func = at_token (record { type = TokenType.semicolon; value = codes ";" }) 0 [] 7

next_token-minus : Monad.next_token minus ≡ done tt behind_minus
unfolding Monad.next_token Scan.next_token scan infer bytes_eq
next_token-minus = refl

next_token-func : Monad.next_token behind_minus ≡ done tt behind_func
unfolding Monad.next_token Scan.next_token scan infer bytes_eq
next_token-func = refl

parse_expr_unary-crash_example : parse_expr_unary (callees 1) minus ≡ failed null_deref
parse_expr_unary-crash_example =
    parse_expr_unary-crash (callees 1) minus behind_minus behind_func refl next_token-minus refl
      next_token-func refl
