-- ===== src/App/Tests.antt =====
-- A run of eokas_main of src/app/app.cxx, and the theorem at it.
use eokas_lang.Prelude.{◌≡◌, refl, true, none, some, codes, Run, ok, fault}
use eokas_lang.Token.{infer}
use eokas_lang.Scanner.State.{ready}
use eokas_lang.Scanner.Scan
use eokas_lang.Scanner.Scan.{scan}
use eokas_lang.Ast.Map.{insert}
use eokas_lang.Parser.Checks.{require, require_id, check_token}
use eokas_lang.Parser.Monad
use eokas_lang.Parser.Monad.{Outcome, done, null, failed}
use eokas_lang.Parser.Modules.{
  parse, parse_module, module_loop, module_entry, export_entry, parse_export,
}
use eokas_lang.Frontend.{scanner_source, parse_source}
use eokas_lang.Frontend.Tests.{test_conversions}
use eokas_lang.Engine.Tests.{empty_engine}
use eokas_lang.App.{Request, Ending, ran, eokas_main}
use eokas_lang.App.Compiled.{IsCompiled, eokas_main-IsCompiled}
use eokas_lang.Omis.State.{ask}
use eokas_lang.Omis.Scopes.{
  get, add, look_up, find_symbol, get_type_symbol, get_value_symbol, add_value_symbol, push_scope,
  pop_scope,
}
use eokas_lang.Omis.Objects.{
  find_handle, type_at, value_as, value_at, basic, type_pointer, type_func, get_type_size,
  can_losslessly_bitcast, value_integer, value_float, value_bool, value_func, get_func_ret_type,
  get_func_arg_count, get_func_arg_type, get_func_arg_value,
}
use eokas_lang.Omis.Instructions.{
  create_block, get_active_block, set_active_block, get_block_tail, is_terminator_ins, alloc, load,
  store, unary_same, unary_bool, arithmetic, comparison, bitwise, jump, jump_cond, phi, call,
  call_named, ret, bitcast, get_ptr_val, get_ptr_ref,
}
use eokas_lang.Omis.Control.{
  both, condition, branch_value, expr_branch, stmt_block, symbol_type, declared_type,
  stmt_symbol_def, stmt_assign, return_value, stmt_return, end_block, branch_stmt, stmt_branch,
  loop_parts, stmt_loop, stmt_break, stmt_continue, stmt_ensure_tail_ret,
}
use eokas_lang.Ast.Map.{has_key}
use eokas_lang.Prelude.{bytes_eq}
use eokas_lang.Coder.Nodes.{
  encode_type_ref, binary_code, encode_expr_binary, unary_code, encode_expr_unary, encode_expr_int,
  encode_expr_symbol_ref, pass_type, arg_types, name_args, encode_expr_func_def,
  encode_expr_func_ref,
}
use eokas_lang.Coder.Encode.{
  encode_stmt, encode_stmts, encode_branch, encode_value, encode_expr, encode_first, encode_module,
}
use eokas_lang.Coder.Counter.{counter}
use eokas_lang.Engine.{
  Engine, jit, aot, add_module, get_module, load_module, fresh_module, make_code, encode,
}

-- `export a`, to be run
abbrev request : Request
request = record { source = some (codes "export a"); output_opens = true; is_run = true }

abbrev engine_after : Run (Ending × Engine ⦃B = counter⦄) → Engine ⦃B = counter⦄
engine_after (ok (ending, e)) = e
engine_after (fault x) = empty_engine

abbrev last_engine : Engine ⦃B = counter⦄
last_engine = engine_after (eokas_main ⦃B = counter⦄ none none request empty_engine)

request-ran : eokas_main ⦃B = counter⦄ none none request empty_engine ≡ ok (ran true, last_engine)
unfolding ask get add look_up find_symbol get_type_symbol get_value_symbol add_value_symbol
    push_scope pop_scope find_handle type_at value_as value_at basic type_pointer type_func
    get_type_size can_losslessly_bitcast value_integer value_float value_bool value_func
    get_func_ret_type get_func_arg_count get_func_arg_type get_func_arg_value create_block
    get_active_block set_active_block get_block_tail is_terminator_ins alloc load store unary_same
    unary_bool arithmetic comparison bitwise jump jump_cond phi call call_named ret bitcast
    get_ptr_val get_ptr_ref both condition branch_value expr_branch stmt_block symbol_type
    declared_type stmt_symbol_def stmt_assign return_value stmt_return end_block branch_stmt
    stmt_branch loop_parts stmt_loop stmt_break stmt_continue stmt_ensure_tail_ret encode_type_ref
    binary_code encode_expr_binary unary_code encode_expr_unary encode_expr_int
    encode_expr_symbol_ref pass_type arg_types name_args encode_expr_func_def encode_expr_func_ref
    encode_stmt encode_stmts encode_branch encode_value encode_expr encode_first encode_module
    add_module get_module load_module fresh_module make_code encode has_key bytes_eq eokas_main jit
    aot parse_source ready parse parse_module module_loop module_entry export_entry parse_export
    Scan.next_token scan infer require require_id check_token Monad.next_token insert
request-ran = refl

eokas_main-IsCompiled_example : IsCompiled ⦃B = counter⦄ request empty_engine last_engine
eokas_main-IsCompiled_example =
    eokas_main-IsCompiled ⦃B = counter⦄ request empty_engine last_engine true request-ran
