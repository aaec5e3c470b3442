-- ===== src/Coder/Tests.antt =====
-- Runs of the code generator over the backend of Coder/Counter, and the theorems at them.
mod Model
mod Core
use Prim.Native.Nat.{◌%◌, ◌^◌}
use eokas_lang.Prelude.{
  ℕ, ◌+◌, ◌*◌, ◌==◌, ◌≡◌, refl, if◌then◌else◌, true, false, none, some, [], Bytes, codes,
}
use eokas_lang.Ast.{Expr, no_exprs, Stmt, Stmts, no_stmts, stmt_cons, Module}
use eokas_lang.Ast.Oper.{BinaryOper}
use eokas_lang.Ast.Int.{pos, negsuc}
use eokas_lang.Parser.Monad.{Outcome, done, null, failed}
use eokas_lang.Omis.Bridge.{Bridge, Handle, Op}
use eokas_lang.Omis.State.{OmisType, OmisValue, OmisModule, M, ask}
use eokas_lang.Omis.Scopes.{
  get, add, look_up, find_symbol, get_type_symbol, get_value_symbol, add_value_symbol, push_scope,
  pop_scope,
}
use eokas_lang.Omis.Objects.{
  find_handle, type_at, value_as, value_at, basic, type_pointer, type_func, get_type_size,
  can_losslessly_bitcast, value_integer, value_float, value_bool, value_func, get_func_ret_type,
  get_func_arg_count, get_func_arg_type, get_func_arg_value, basic_index, equals_type,
}
use eokas_lang.Omis.Instructions.{
  create_block, get_active_block, set_active_block, get_block_tail, is_terminator_ins, alloc, load,
  store, unary_same, unary_bool, arithmetic, comparison, bitwise, jump, jump_cond, phi, call,
  call_named, ret, bitcast, get_ptr_val, get_ptr_ref,
}
use eokas_lang.Omis.Control.{
  both, condition, branch_value, expr_branch, stmt_block, symbol_type, declared_type,
  stmt_symbol_def, stmt_assign, return_value, stmt_return, end_block, branch_stmt, stmt_branch,
  loop_parts, stmt_loop, stmt_break, stmt_continue, stmt_ensure_tail_ret,
}
use eokas_lang.Omis.Steady.Rules.{Restores}
use eokas_lang.Omis.Interned.{Interned, equals_type-handles}
use eokas_lang.Omis.Symbols.{stmt_symbol_def-once}
use eokas_lang.Ast.Map.{has_key}
use eokas_lang.Prelude.{bytes_eq, no_return, ◌<◌, ◌⊎◌, arith}
use eokas_lang.Coder.Constants.{from_u64, encode_expr_int-bits}
use eokas_lang.Coder.Nodes.{
  to_u64, encode_type_ref, binary_code, encode_expr_binary, unary_code, encode_expr_unary,
  encode_expr_int, encode_expr_symbol_ref, pass_type, arg_types, name_args, encode_expr_func_def,
  encode_expr_func_ref,
}
use eokas_lang.Coder.Encode.{
  encode_stmt, encode_stmts, encode_branch, encode_value, encode_expr, encode_first, encode_module,
}
use eokas_lang.Coder.Encodable.{IsEncodable, AllEncodable}
use eokas_lang.Omis.Structs.{Member}
use eokas_lang.Omis.Symbols.{HasValue}
use eokas_lang.Omis.Cstd.{cstd_main}
use eokas_lang.Omis.Declared.{cstd_main-HasValue}
use eokas_lang.Prelude.{zero, suc, ok, null_deref, Option, none, some, List, [], ◌==◌}
use eokas_lang.Coder.Steady.{encode_stmt-Restores, encode_expr-Restores, encode_stmt-block}
use eokas_lang.Coder.Limits.{encode_stmt-IsEncodable, encode_module-AllEncodable}
use eokas_lang.Coder.Tables.{encode_module-Interned, encode_module-type}
use eokas_lang.Coder.Counter.{counter, start}

abbrev pub x : Bytes
x = codes "x"

-- `var x = 1; loop(; x == 1; x = x + 1) { break; }` in a block
abbrev sample : Stmts
sample = stmt_cons (Stmt.symbol_def x none (Expr.literal_int (pos 1)) true) (
    stmt_cons
      (Stmt.loop (Stmt.block no_stmts)
        (Expr.binary BinaryOper.eq (Expr.symbol_ref x) (Expr.literal_int (pos 1)))
        (Stmt.assign (Expr.symbol_ref x)
          (Expr.binary BinaryOper.add (Expr.symbol_ref x) (Expr.literal_int (pos 1))))
        (Stmt.block (stmt_cons Stmt.break no_stmts)))
      no_stmts)

abbrev pub end_of :
    {A : Type 0}
    → OmisModule ⦃B = counter⦄
    → Outcome (OmisModule ⦃B = counter⦄) A
    → OmisModule ⦃B = counter⦄
end_of s (done a t) = t
end_of s (null t) = s
end_of s (failed e) = s

abbrev sample_end : OmisModule ⦃B = counter⦄
sample_end = end_of start (encode_stmt ⦃B = counter⦄ (Stmt.block sample) start)

sample-done : encode_stmt ⦃B = counter⦄ (Stmt.block sample) start ≡ done tt sample_end
unfolding ask get add look_up find_symbol get_type_symbol get_value_symbol add_value_symbol
    push_scope pop_scope find_handle type_at value_as value_at basic type_pointer type_func
    get_type_size can_losslessly_bitcast value_integer value_float value_bool value_func
    get_func_ret_type get_func_arg_count get_func_arg_type get_func_arg_value create_block
    get_active_block set_active_block get_block_tail is_terminator_ins alloc load store unary_same
    unary_bool arithmetic comparison bitwise jump jump_cond phi call call_named ret bitcast
    get_ptr_val get_ptr_ref both condition branch_value expr_branch stmt_block symbol_type
    declared_type stmt_symbol_def stmt_assign return_value stmt_return end_block branch_stmt
    stmt_branch loop_parts stmt_loop stmt_break stmt_continue stmt_ensure_tail_ret encode_type_ref
    binary_code encode_expr_binary unary_code encode_expr_unary encode_expr_int
    encode_expr_symbol_ref pass_type arg_types name_args encode_expr_func_def encode_expr_func_ref
    encode_stmt encode_stmts encode_branch encode_value encode_expr encode_first encode_module
    has_key bytes_eq
sample-done = refl

abbrev twice : Expr
twice = Expr.binary BinaryOper.add (Expr.literal_int (pos 2)) (Expr.literal_int (pos 3))

abbrev twice_value : OmisValue
twice_value = record { id = 5; type = record { id = 2; handle = 4; name = [] }; handle = 68 }

abbrev twice_end : OmisModule ⦃B = counter⦄
twice_end = end_of start (encode_expr ⦃B = counter⦄ twice start)

twice-done : encode_expr ⦃B = counter⦄ twice start ≡ done twice_value twice_end
unfolding ask get add look_up find_symbol get_type_symbol get_value_symbol add_value_symbol
    push_scope pop_scope find_handle type_at value_as value_at basic type_pointer type_func
    get_type_size can_losslessly_bitcast value_integer value_float value_bool value_func
    get_func_ret_type get_func_arg_count get_func_arg_type get_func_arg_value create_block
    get_active_block set_active_block get_block_tail is_terminator_ins alloc load store unary_same
    unary_bool arithmetic comparison bitwise jump jump_cond phi call call_named ret bitcast
    get_ptr_val get_ptr_ref both condition branch_value expr_branch stmt_block symbol_type
    declared_type stmt_symbol_def stmt_assign return_value stmt_return end_block branch_stmt
    stmt_branch loop_parts stmt_loop stmt_break stmt_continue stmt_ensure_tail_ret encode_type_ref
    binary_code encode_expr_binary unary_code encode_expr_unary encode_expr_int
    encode_expr_symbol_ref pass_type arg_types name_args encode_expr_func_def encode_expr_func_ref
    encode_stmt encode_stmts encode_branch encode_value encode_expr encode_first encode_module
    has_key bytes_eq
twice-done = refl

abbrev pub program : Module
program = record { imports = []; exports = []; body = sample }

abbrev pub program_end : OmisModule ⦃B = counter⦄
program_end = end_of start (encode_module ⦃B = counter⦄ program start)

pub program-done : encode_module ⦃B = counter⦄ program start ≡ done tt program_end
unfolding ask get add look_up find_symbol get_type_symbol get_value_symbol add_value_symbol
    push_scope pop_scope find_handle type_at value_as value_at basic type_pointer type_func
    get_type_size can_losslessly_bitcast value_integer value_float value_bool value_func
    get_func_ret_type get_func_arg_count get_func_arg_type get_func_arg_value create_block
    get_active_block set_active_block get_block_tail is_terminator_ins alloc load store unary_same
    unary_bool arithmetic comparison bitwise jump jump_cond phi call call_named ret bitcast
    get_ptr_val get_ptr_ref both condition branch_value expr_branch stmt_block symbol_type
    declared_type stmt_symbol_def stmt_assign return_value stmt_return end_block branch_stmt
    stmt_branch loop_parts stmt_loop stmt_break stmt_continue stmt_ensure_tail_ret encode_type_ref
    binary_code encode_expr_binary unary_code encode_expr_unary encode_expr_int
    encode_expr_symbol_ref pass_type arg_types name_args encode_expr_func_def encode_expr_func_ref
    encode_stmt encode_stmts encode_branch encode_value encode_expr encode_first encode_module
    has_key bytes_eq
program-done = refl

-- Tests: `break` outside of a loop, a call with no argument and a statement that is a call.
break-null : encode_stmt ⦃B = counter⦄ Stmt.break start ≡ null start
unfolding ask get add look_up find_symbol get_type_symbol get_value_symbol add_value_symbol
    push_scope pop_scope find_handle type_at value_as value_at basic type_pointer type_func
    get_type_size can_losslessly_bitcast value_integer value_float value_bool value_func
    get_func_ret_type get_func_arg_count get_func_arg_type get_func_arg_value create_block
    get_active_block set_active_block get_block_tail is_terminator_ins alloc load store unary_same
    unary_bool arithmetic comparison bitwise jump jump_cond phi call call_named ret bitcast
    get_ptr_val get_ptr_ref both condition branch_value expr_branch stmt_block symbol_type
    declared_type stmt_symbol_def stmt_assign return_value stmt_return end_block branch_stmt
    stmt_branch loop_parts stmt_loop stmt_break stmt_continue stmt_ensure_tail_ret encode_type_ref
    binary_code encode_expr_binary unary_code encode_expr_unary encode_expr_int
    encode_expr_symbol_ref pass_type arg_types name_args encode_expr_func_def encode_expr_func_ref
    encode_stmt encode_stmts encode_branch encode_value encode_expr encode_first encode_module
    has_key bytes_eq
break-null = refl

call-failed :
    encode_expr ⦃B = counter⦄ (Expr.func_ref (Expr.literal_int (pos 1)) no_exprs) start
    ≡ failed no_return
unfolding ask get add look_up find_symbol get_type_symbol get_value_symbol add_value_symbol
    push_scope pop_scope find_handle type_at value_as value_at basic type_pointer type_func
    get_type_size can_losslessly_bitcast value_integer value_float value_bool value_func
    get_func_ret_type get_func_arg_count get_func_arg_type get_func_arg_value create_block
    get_active_block set_active_block get_block_tail is_terminator_ins alloc load store unary_same
    unary_bool arithmetic comparison bitwise jump jump_cond phi call call_named ret bitcast
    get_ptr_val get_ptr_ref both condition branch_value expr_branch stmt_block symbol_type
    declared_type stmt_symbol_def stmt_assign return_value stmt_return end_block branch_stmt
    stmt_branch loop_parts stmt_loop stmt_break stmt_continue stmt_ensure_tail_ret encode_type_ref
    binary_code encode_expr_binary unary_code encode_expr_unary encode_expr_int
    encode_expr_symbol_ref pass_type arg_types name_args encode_expr_func_def encode_expr_func_ref
    encode_stmt encode_stmts encode_branch encode_value encode_expr encode_first encode_module
    has_key bytes_eq
call-failed = refl

invoke-null : encode_stmt ⦃B = counter⦄ (Stmt.invoke twice) start ≡ null start
unfolding ask get add look_up find_symbol get_type_symbol get_value_symbol add_value_symbol
    push_scope pop_scope find_handle type_at value_as value_at basic type_pointer type_func
    get_type_size can_losslessly_bitcast value_integer value_float value_bool value_func
    get_func_ret_type get_func_arg_count get_func_arg_type get_func_arg_value create_block
    get_active_block set_active_block get_block_tail is_terminator_ins alloc load store unary_same
    unary_bool arithmetic comparison bitwise jump jump_cond phi call call_named ret bitcast
    get_ptr_val get_ptr_ref both condition branch_value expr_branch stmt_block symbol_type
    declared_type stmt_symbol_def stmt_assign return_value stmt_return end_block branch_stmt
    stmt_branch loop_parts stmt_loop stmt_break stmt_continue stmt_ensure_tail_ret encode_type_ref
    binary_code encode_expr_binary unary_code encode_expr_unary encode_expr_int
    encode_expr_symbol_ref pass_type arg_types name_args encode_expr_func_def encode_expr_func_ref
    encode_stmt encode_stmts encode_branch encode_value encode_expr encode_first encode_module
    has_key bytes_eq
invoke-null = refl

encode_stmt-Restores_example : Restores ⦃B = counter⦄ start sample_end
encode_stmt-Restores_example =
    encode_stmt-Restores ⦃B = counter⦄ (Stmt.block sample) start sample_end sample-done

encode_expr-Restores_example : Restores ⦃B = counter⦄ start twice_end
encode_expr-Restores_example =
    encode_expr-Restores ⦃B = counter⦄ twice twice_value start twice_end twice-done

encode_stmt-block_example : (sample_end.scope ≡ start.scope) × (sample_end.parents ≡ start.parents)
encode_stmt-block_example = encode_stmt-block ⦃B = counter⦄ sample start sample_end sample-done

encode_stmt-IsEncodable_example : IsEncodable false (Stmt.block sample)
encode_stmt-IsEncodable_example =
    encode_stmt-IsEncodable ⦃B = counter⦄ (Stmt.block sample) start sample_end (refl, tt) refl refl
      sample-done

encode_module-AllEncodable_example : AllEncodable false sample
encode_module-AllEncodable_example =
    encode_module-AllEncodable ⦃B = counter⦄ program start program_end (refl, tt) refl refl
      program-done

encode_module-Interned_example : Interned ⦃B = counter⦄ program_end
encode_module-Interned_example =
    encode_module-Interned ⦃B = counter⦄ start program_end program (tt, tt) program-done

-- The same module again, where the types are there.
abbrev again_end : OmisModule ⦃B = counter⦄
again_end = end_of start (encode_module ⦃B = counter⦄ program program_end)

again-done : encode_module ⦃B = counter⦄ program program_end ≡ done tt again_end
unfolding ask get add look_up find_symbol get_type_symbol get_value_symbol add_value_symbol
    push_scope pop_scope find_handle type_at value_as value_at basic type_pointer type_func
    get_type_size can_losslessly_bitcast value_integer value_float value_bool value_func
    get_func_ret_type get_func_arg_count get_func_arg_type get_func_arg_value create_block
    get_active_block set_active_block get_block_tail is_terminator_ins alloc load store unary_same
    unary_bool arithmetic comparison bitwise jump jump_cond phi call call_named ret bitcast
    get_ptr_val get_ptr_ref both condition branch_value expr_branch stmt_block symbol_type
    declared_type stmt_symbol_def stmt_assign return_value stmt_return end_block branch_stmt
    stmt_branch loop_parts stmt_loop stmt_break stmt_continue stmt_ensure_tail_ret encode_type_ref
    binary_code encode_expr_binary unary_code encode_expr_unary encode_expr_int
    encode_expr_symbol_ref pass_type arg_types name_args encode_expr_func_def encode_expr_func_ref
    encode_stmt encode_stmts encode_branch encode_value encode_expr encode_first encode_module
    has_key bytes_eq
again-done = refl

abbrev pub int_type : OmisType
int_type = record { id = 1; handle = 4; name = [] }

pub int_type-found : find_handle 4 program_end.types ≡ some int_type
unfolding ask get add look_up find_symbol get_type_symbol get_value_symbol add_value_symbol
    push_scope pop_scope find_handle type_at value_as value_at basic type_pointer type_func
    get_type_size can_losslessly_bitcast value_integer value_float value_bool value_func
    get_func_ret_type get_func_arg_count get_func_arg_type get_func_arg_value create_block
    get_active_block set_active_block get_block_tail is_terminator_ins alloc load store unary_same
    unary_bool arithmetic comparison bitwise jump jump_cond phi call call_named ret bitcast
    get_ptr_val get_ptr_ref both condition branch_value expr_branch stmt_block symbol_type
    declared_type stmt_symbol_def stmt_assign return_value stmt_return end_block branch_stmt
    stmt_branch loop_parts stmt_loop stmt_break stmt_continue stmt_ensure_tail_ret encode_type_ref
    binary_code encode_expr_binary unary_code encode_expr_unary encode_expr_int
    encode_expr_symbol_ref pass_type arg_types name_args encode_expr_func_def encode_expr_func_ref
    encode_stmt encode_stmts encode_branch encode_value encode_expr encode_first encode_module
    has_key bytes_eq
int_type-found = refl

encode_module-type_example : find_handle 4 again_end.types ≡ some int_type
encode_module-type_example =
    encode_module-type ⦃B = counter⦄ program_end again_end program 4 int_type int_type-found
      again-done
