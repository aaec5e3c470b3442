-- ===== src/Engine/Tests.antt =====
-- A run of coder_t::encode of src/app/coder.cpp, and the theorems at it.
use eokas_lang.Prelude.{◌≡◌, refl, false, none, some, [], Bytes, codes}
use eokas_lang.Parser.Monad.{Outcome, done, null, failed}
use eokas_lang.Omis.State.{OmisModule, ask}
use eokas_lang.Omis.Scopes.{
  get, add, look_up, find_symbol, get_type_symbol, get_value_symbol, add_value_symbol, push_scope,
  pop_scope,
}
use eokas_lang.Omis.Objects.{
  find_handle, type_at, value_as, value_at, basic, type_pointer, type_func, get_type_size,
  can_losslessly_bitcast, value_integer, value_float, value_bool, value_func, get_func_ret_type,
  get_func_arg_count, get_func_arg_type, get_func_arg_value,
}
use eokas_lang.Omis.Instructions.{
  create_block, get_active_block, set_active_block, get_block_tail, is_terminator_ins, alloc, load,
  store, unary_same, unary_bool, arithmetic, comparison, bitwise, jump, jump_cond, phi, call,
  call_named, ret, bitcast, get_ptr_val, get_ptr_ref,
}
use eokas_lang.Omis.Control.{
  both, condition, branch_value, expr_branch, stmt_block, symbol_type, declared_type,
  stmt_symbol_def, stmt_assign, return_value, stmt_return, end_block, branch_stmt, stmt_branch,
  loop_parts, stmt_loop, stmt_break, stmt_continue, stmt_ensure_tail_ret,
}
use eokas_lang.Omis.Interned.{Interned}
use eokas_lang.Ast.Map.{has_key}
use eokas_lang.Prelude.{bytes_eq}
use eokas_lang.Coder.Nodes.{
  encode_type_ref, binary_code, encode_expr_binary, unary_code, encode_expr_unary, encode_expr_int,
  encode_expr_symbol_ref, pass_type, arg_types, name_args, encode_expr_func_def,
  encode_expr_func_ref,
}
use eokas_lang.Coder.Encode.{
  encode_stmt, encode_stmts, encode_branch, encode_value, encode_expr, encode_first, encode_module,
}
use eokas_lang.Coder.Encodable.{AllEncodable}
use eokas_lang.Coder.Counter.{counter}
use eokas_lang.Coder.Tests.{program}
use eokas_lang.Engine.{Engine, add_module, get_module, load_module, fresh_module, make_code, encode}
use eokas_lang.Engine.Loading.{Loaded, IsCode, encode-Loaded, encode-once, encode-code}

abbrev pub empty_engine : Engine ⦃B = counter⦄
empty_engine = record { bridge = 1; statics = λ b. none; next_id = 1; modules = [] }

abbrev file : Bytes
file = codes "m"

abbrev module_of :
    Outcome (Engine ⦃B = counter⦄) (OmisModule ⦃B = counter⦄) → OmisModule ⦃B = counter⦄
module_of (done m f) = m
module_of _ = fresh_module ⦃B = counter⦄ none none file empty_engine (0, 1)

abbrev engine_of : Outcome (Engine ⦃B = counter⦄) (OmisModule ⦃B = counter⦄) → Engine ⦃B = counter⦄
engine_of (done m f) = f
engine_of (null f) = f
engine_of (failed x) = empty_engine

abbrev built : OmisModule ⦃B = counter⦄
built = module_of (encode ⦃B = counter⦄ none none file program empty_engine)

abbrev built_engine : Engine ⦃B = counter⦄
built_engine = engine_of (encode ⦃B = counter⦄ none none file program empty_engine)

built-done : encode ⦃B = counter⦄ none none file program empty_engine ≡ done built built_engine
unfolding ask get add look_up find_symbol get_type_symbol get_value_symbol add_value_symbol
    push_scope pop_scope find_handle type_at value_as value_at basic type_pointer type_func
    get_type_size can_losslessly_bitcast value_integer value_float value_bool value_func
    get_func_ret_type get_func_arg_count get_func_arg_type get_func_arg_value create_block
    get_active_block set_active_block get_block_tail is_terminator_ins alloc load store unary_same
    unary_bool arithmetic comparison bitwise jump jump_cond phi call call_named ret bitcast
    get_ptr_val get_ptr_ref both condition branch_value expr_branch stmt_block symbol_type
    declared_type stmt_symbol_def stmt_assign return_value stmt_return end_block branch_stmt
    stmt_branch loop_parts stmt_loop stmt_break stmt_continue stmt_ensure_tail_ret encode_type_ref
    binary_code encode_expr_binary unary_code encode_expr_unary encode_expr_int
    encode_expr_symbol_ref pass_type arg_types name_args encode_expr_func_def encode_expr_func_ref
    encode_stmt encode_stmts encode_branch encode_value encode_expr encode_first encode_module
    add_module get_module load_module fresh_module make_code encode has_key bytes_eq
built-done = refl

encode-Loaded_example :
    Loaded ⦃B = counter⦄ file
      (IsCode ⦃B = counter⦄ none none file program empty_engine)
      empty_engine
      (encode ⦃B = counter⦄ none none file program empty_engine)
encode-Loaded_example = encode-Loaded ⦃B = counter⦄ none none file program empty_engine

encode-once_example :
    (get_module ⦃B = counter⦄ file built_engine ≡ some built)
    × (encode ⦃B = counter⦄ none none file program built_engine ≡ null built_engine)
encode-once_example =
    encode-once ⦃B = counter⦄ none none none none file program program built empty_engine
      built_engine built-done

encode-code_example : AllEncodable false program.body × Interned ⦃B = counter⦄ built
encode-code_example =
    encode-code ⦃B = counter⦄ file program built empty_engine built_engine built-done
