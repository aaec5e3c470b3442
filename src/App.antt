-- ===== src/App.antt =====
-- src/app/app.cxx: `eokas_main`, from a source file to the run of its module.
pub mod Compiled
mod Tests
use eokas_lang.Prelude.{Bool, Option, none, some, [], Bytes, Run, ok, fault, if◌then◌else◌}
use eokas_lang.Ast.{Module}
use eokas_lang.Parser.Source.{Conversions}
use eokas_lang.Parser.Monad.{Parser, ErrorMessage, Outcome, done, null, failed}
use eokas_lang.Frontend.{scanner_source, parse_source}
use eokas_lang.Omis.Bridge.{Bridge}
use eokas_lang.Omis.State.{OmisValue, OmisModule}
use eokas_lang.Engine.{Engine, encode, jit, aot}

-- What is asked for: the bytes of the file, none where it does not open, whether the file for the output
-- opens, and whether the command is `run`.
pub record Request : Type 0 where
  pub source : Option Bytes
  pub output_opens : Bool
  pub is_run : Bool

-- Where eokas_main returns: at the file, at the parser with its error, at the coder, at the output, and at the
-- end, with what the run of the module returned.
pub data Ending : Type 0 where
  no_source : Ending
  no_tree : Option ErrorMessage → Ending
  no_code : Ending
  no_output : Ending
  ran : Bool → Ending

module _ ⦃conv : Conversions⦄ ⦃B : Bridge⦄ where
  abbrev pub at_end : Run (Bool × Engine) → Run (Ending × Engine)
  at_end (ok (result, e)) = ok (ran result, e)
  at_end (fault x) = fault x

  -- From the module that the coder returned on.
  abbrev pub run_code : Request → Outcome Engine OmisModule → Run (Ending × Engine)
  run_code r (done unit e) =
      if r.output_opens
      then at_end (if r.is_run then jit unit e else aot unit e)
      else ok (no_output, e)
  run_code r (null e) = ok (no_code, e)
  run_code r (failed x) = fault x

  -- From the tree that the parser returned on. The name of its module is empty: the parser gives it none.
  abbrev pub code_tree :
      Option OmisValue
      → Option OmisValue
      → Request
      → Engine
      → Outcome Parser Module
      → Run (Ending × Engine)
  code_tree b c r e (done node p) = run_code r (encode b c [] node e)
  code_tree b c r e (null p) = ok (no_tree p.errormsg, e)
  code_tree b c r e (failed x) = fault x

  -- eokas_main, with the coder's engine, and what the memory holds for the targets of a new module.
  unfoldable pub eokas_main :
      Option OmisValue → Option OmisValue → Request → Engine → Run (Ending × Engine)
  eokas_main b c r e = elim r.source [
    | none ↦ ok (no_source, e)
    | some text ↦ code_tree b c r e (parse_source text)
  ]
