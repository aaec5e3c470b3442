-- ===== src/Coder/Tests/Model.antt =====
-- The theorems of src/omis at the module of Coder/Tests and the backend of Coder/Counter.
use Prim.Native.Nat.{◌^◌}
use eokas_lang.Prelude.{ℕ, ◌==◌, ◌≡◌, refl, true, none, some, [], codes}
use eokas_lang.Ast.Int.{pos, negsuc}
use eokas_lang.Parser.Monad.{done, null}
use eokas_lang.Omis.State.{OmisType, OmisValue, OmisModule, M, ask}
use eokas_lang.Omis.Scopes.{
  get, add, look_up, find_symbol, get_type_symbol, get_value_symbol, add_value_symbol, push_scope,
  pop_scope,
}
use eokas_lang.Omis.Objects.{
  find_handle, type_at, value_as, value_at, basic, type_pointer, type_func, get_type_size,
  can_losslessly_bitcast, value_integer, value_float, value_bool, value_func, get_func_ret_type,
  get_func_arg_count, get_func_arg_type, get_func_arg_value, equals_type,
}
use eokas_lang.Omis.Instructions.{
  create_block, get_active_block, set_active_block, get_block_tail, is_terminator_ins, alloc, load,
  store, unary_same, unary_bool, arithmetic, comparison, bitwise, jump, jump_cond, phi, call,
  call_named, ret, bitcast, get_ptr_val, get_ptr_ref,
}
use eokas_lang.Omis.Control.{
  both, condition, branch_value, expr_branch, stmt_block, symbol_type, declared_type,
  stmt_symbol_def, stmt_assign, return_value, stmt_return, end_block, branch_stmt, stmt_branch,
  loop_parts, stmt_loop, stmt_break, stmt_continue, stmt_ensure_tail_ret,
}
use eokas_lang.Omis.Interned.{equals_type-handles}
use eokas_lang.Omis.Symbols.{stmt_symbol_def-once}
use eokas_lang.Ast.Map.{has_key}
use eokas_lang.Prelude.{bytes_eq, ◌<◌, ◌⊎◌, arith}
use eokas_lang.Coder.Constants.{from_u64, encode_expr_int-bits}
use eokas_lang.Coder.Nodes.{
  to_u64, encode_type_ref, binary_code, encode_expr_binary, unary_code, encode_expr_unary,
  encode_expr_int, encode_expr_symbol_ref, pass_type, arg_types, name_args, encode_expr_func_def,
  encode_expr_func_ref,
}
use eokas_lang.Coder.Encode.{
  encode_stmt, encode_stmts, encode_branch, encode_value, encode_expr, encode_first, encode_module,
}
use eokas_lang.Omis.Symbols.{HasValue}
use eokas_lang.Omis.Cstd.{cstd_main}
use eokas_lang.Omis.Answers.{answered, IsAnswering}
use eokas_lang.Omis.Declared.{cstd_main-HasValue}
use eokas_lang.Prelude.{◌≢◌, zero, suc, none, some, [], ◌==◌}
use eokas_lang.Coder.Counter.{counter, some_type, start}
use eokas_lang.Coder.Tests.{x, end_of, program, program_end, program-done, int_type, int_type-found}
use eokas_lang.Coder.Tables.{encode_module-Interned}

abbrev wide_type : OmisType
wide_type = record { id = 6; handle = 5; name = [] }

wide_type-found : find_handle 5 program_end.types ≡ some wide_type
unfolding ask get add look_up find_symbol get_type_symbol get_value_symbol add_value_symbol
    push_scope pop_scope find_handle type_at value_as value_at basic type_pointer type_func
    get_type_size can_losslessly_bitcast value_integer value_float value_bool value_func
    get_func_ret_type get_func_arg_count get_func_arg_type get_func_arg_value create_block
    get_active_block set_active_block get_block_tail is_terminator_ins alloc load store unary_same
    unary_bool arithmetic comparison bitwise jump jump_cond phi call call_named ret bitcast
    get_ptr_val get_ptr_ref both condition branch_value expr_branch stmt_block symbol_type
    declared_type stmt_symbol_def stmt_assign return_value stmt_return end_block branch_stmt
    stmt_branch loop_parts stmt_loop stmt_break stmt_continue stmt_ensure_tail_ret encode_type_ref
    binary_code encode_expr_binary unary_code encode_expr_unary encode_expr_int
    encode_expr_symbol_ref pass_type arg_types name_args encode_expr_func_def encode_expr_func_ref
    encode_stmt encode_stmts encode_branch encode_value encode_expr encode_first encode_module
    has_key bytes_eq
wide_type-found = refl

equals_type-handles_example :
    (equals_type int_type wide_type ≡ (int_type.handle == wide_type.handle))
    × ((int_type.id == wide_type.id) ≡ (int_type.handle == wide_type.handle))
equals_type-handles_example =
    equals_type-handles ⦃B = counter⦄ program_end int_type wide_type
      (encode_module-Interned ⦃B = counter⦄ start program_end program (tt, tt) program-done)
      int_type-found wide_type-found

abbrev one_code : M ⦃B = counter⦄ OmisValue
one_code = encode_expr_int ⦃B = counter⦄ (pos 1)

abbrev def_end : OmisModule ⦃B = counter⦄
def_end = end_of start (stmt_symbol_def ⦃B = counter⦄ x none one_code start)

def-done : stmt_symbol_def ⦃B = counter⦄ x none one_code start ≡ done tt def_end
unfolding ask get add look_up find_symbol get_type_symbol get_value_symbol add_value_symbol
    push_scope pop_scope find_handle type_at value_as value_at basic type_pointer type_func
    get_type_size can_losslessly_bitcast value_integer value_float value_bool value_func
    get_func_ret_type get_func_arg_count get_func_arg_type get_func_arg_value create_block
    get_active_block set_active_block get_block_tail is_terminator_ins alloc load store unary_same
    unary_bool arithmetic comparison bitwise jump jump_cond phi call call_named ret bitcast
    get_ptr_val get_ptr_ref both condition branch_value expr_branch stmt_block symbol_type
    declared_type stmt_symbol_def stmt_assign return_value stmt_return end_block branch_stmt
    stmt_branch loop_parts stmt_loop stmt_break stmt_continue stmt_ensure_tail_ret encode_type_ref
    binary_code encode_expr_binary unary_code encode_expr_unary encode_expr_int
    encode_expr_symbol_ref pass_type arg_types name_args encode_expr_func_def encode_expr_func_ref
    encode_stmt encode_stmts encode_branch encode_value encode_expr encode_first encode_module
    has_key bytes_eq
def-done = refl

stmt_symbol_def-once_example :
    ((v : OmisValue) × (get_value_symbol ⦃B = counter⦄ x true def_end
        ≡ done (some (record { name = x; value = v; func = def_end.scope.func })) def_end))
    × (stmt_symbol_def ⦃B = counter⦄ x none one_code def_end ≡ null def_end)
stmt_symbol_def-once_example =
    stmt_symbol_def-once ⦃B = counter⦄ x none none one_code one_code start def_end def-done

encode_expr_int-bits_example :
    (bits : ℕ) × (((bits ≡ 32) ⊎ (bits ≡ 64))
      × ((encode_expr_int ⦃B = counter⦄ (negsuc 4)
            ≡ value_integer ⦃B = counter⦄ (to_u64 (negsuc 4)) bits)
          × ((to_u64 (negsuc 4) < 2 ^ bits) × (from_u64 (to_u64 (negsuc 4)) ≡ negsuc 4))))
encode_expr_int-bits_example = encode_expr_int-bits ⦃B = counter⦄ (negsuc 4) (omega arith)

some_type-ne_zero : (t : ℕ) → some_type t ≢ 0
some_type-ne_zero zero = omega arith
some_type-ne_zero (suc t) = omega arith

pub counter-IsAnswering : IsAnswering counter
counter-IsAnswering = record {
  type_basic = λ b s. answered (omega arith);
  type_func = λ ret args varg s. answered (omega arith);
  value_func = λ m name type s. answered (omega arith);
  get_value_type = λ h n s. answered (some_type-ne_zero _);
  get_type_name = λ h n s. ([], (s, refl));
}

cstd_main-HasValue_example :
    (t : OmisModule ⦃B = counter⦄) × ((cstd_main ⦃B = counter⦄ start ≡ done tt t)
      × (HasValue ⦃B = counter⦄ (codes "printf") t
          × (HasValue ⦃B = counter⦄ (codes "sprintf") t
              × (HasValue ⦃B = counter⦄ (codes "malloc") t
                  × (HasValue ⦃B = counter⦄ (codes "free") t
                      × HasValue ⦃B = counter⦄ (codes "strlen") t)))))
cstd_main-HasValue_example = cstd_main-HasValue ⦃B = counter⦄ counter-IsAnswering start
