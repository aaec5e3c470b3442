-- ===== src/Omis/Control.antt =====
-- src/omis/model.cpp: the statements and the branching expression that a module is built with. What
-- they print on an error is not kept.
use eokas_lang.Prelude.{
  Bool, false, Option, none, some, [], ◌∷◌, ◌==◌, Bytes, codes, if◌then◌else◌, empty_call,
}
use eokas_lang.Parser.Monad.{failed}
use eokas_lang.Omis.Bridge.{Bridge, BasicType, BinaryIns}
use eokas_lang.Omis.State.{
  OmisType, OmisValue, M, ◌>>=◌, ◌>>◌, pure, return_null, nullable, deref, get_state, modify, ask,
}
use eokas_lang.Omis.Scopes.{get_value_symbol, add_value_symbol, push_scope, pop_scope}
use eokas_lang.Omis.Objects.{
  basic, equals_type, equals_value, can_losslessly_bitcast, get_func_ret_type, get_type_size,
  value_integer,
}
use eokas_lang.Omis.Instructions.{
  create_block, get_active_block, set_active_block, get_block_tail, is_terminator_ins, alloc, store,
  comparison, arithmetic, jump, jump_cond, phi, incoming, call_named, ret, bitcast, get_ptr_val,
  get_ptr_ref,
}

module _ ⦃B : Bridge⦄ where
  -- Both pointers are computed before either is tested.
  unfoldable pub both : {A C : Type 0} → M A → M C → M (A × C)
  both m n = do
    a ← nullable m
    c ← nullable n
    elim a [ none ↦ return_null | some x ↦ elim c [ none ↦ return_null | some y ↦ pure (x, y) ] ]

  -- The value of a condition, which must be a bool.
  unfoldable pub condition : M OmisValue → M OmisValue
  condition lambda_cond = do
    c ← lambda_cond
    cond ← get_ptr_val c
    bool ← basic BasicType.bool
    if equals_type cond.type bool then pure cond else return_null

  -- A branch of `expr_branch`.
  unfoldable pub branch_value : OmisValue → OmisValue → M OmisValue → M OmisValue
  branch_value block end lambda = do
    set_active_block block
    v ← lambda
    val ← get_ptr_val v
    j ← jump end
    pure val

  -- omis_module_t::expr_branch
  unfoldable pub expr_branch : M OmisValue → M OmisValue → M OmisValue → M OmisValue
  expr_branch lambda_cond lambda_true lambda_false = do
    trinary_begin ← create_block (codes "trinary.begin")
    trinary_true ← create_block (codes "trinary.true")
    trinary_false ← create_block (codes "trinary.false")
    trinary_end ← create_block (codes "trinary.end")
    j ← jump trinary_begin
    set_active_block trinary_begin
    cond ← condition lambda_cond
    j₁ ← jump_cond cond trinary_true trinary_false
    true_val ← branch_value trinary_true trinary_end lambda_true
    false_val ← branch_value trinary_false trinary_end lambda_false
    set_active_block trinary_end
    if equals_type true_val.type false_val.type
        then phi true_val.type
            (incoming false_val trinary_false (incoming true_val trinary_true []))
        else return_null

  -- omis_module_t::stmt_block
  unfoldable pub stmt_block : M (Unit {0}) → M (Unit {0})
  stmt_block lambda_body = do push_scope none; lambda_body; pop_scope

  -- The type of a symbol: that of its value, or the declared one that it can be cast to.
  unfoldable pub symbol_type : Option OmisType → OmisType → M OmisType
  symbol_type none vtype = pure vtype
  symbol_type (some stype) vtype =
      if stype.id == vtype.id
      then pure stype
      else do casts ← can_losslessly_bitcast vtype stype; if casts then pure stype else return_null

  -- `lambda_type.value()()`, where there is one
  unfoldable pub declared_type : Option (M OmisType) → M (Option OmisType)
  declared_type none = pure none
  declared_type (some lambda_type) = do type ← lambda_type; pure (some type)

  -- omis_module_t::stmt_symbol_def
  unfoldable pub stmt_symbol_def : Bytes → Option (M OmisType) → M OmisValue → M (Unit {0})
  stmt_symbol_def name lambda_type lambda_expr = do
    exists ← get_value_symbol name false
    elim exists [
      | some symbol ↦ return_null
      | none ↦ do
        dtype ← declared_type lambda_type
        e ← lambda_expr
        expr ← get_ptr_val e
        stype ← symbol_type dtype expr.type
        void ← basic BasicType.void
        if equals_type stype void
            then return_null
            else do symbol ← alloc name stype (some expr); add_value_symbol name symbol
    ]

  -- omis_module_t::stmt_assign
  unfoldable pub stmt_assign : M OmisValue → M OmisValue → M (Unit {0})
  stmt_assign lambda_left lambda_right = do
    (lhs, rhs) ← both lambda_left lambda_right
    ptr ← get_ptr_ref lhs
    val ← get_ptr_val rhs
    ret ← store ptr val
    pure tt

  -- stmt_return, in a function that returns a value
  unfoldable pub return_value : OmisType → M OmisValue → M (Unit {0})
  return_value expected lambda_expr = do
    e ← lambda_expr
    expr ← get_ptr_val e
    let actual = expr.type
    if equals_type actual expected then (do r ← ret (some expr); pure tt) else do
      casts ← can_losslessly_bitcast actual expected
      if casts then (do r ← ret (some expr); pure tt) else return_null

  -- omis_module_t::stmt_return
  unfoldable pub stmt_return : Option (M OmisValue) → M (Unit {0})
  stmt_return lambda_expr = do
    s ← get_state
    func ← deref s.scope.func
    expected ← get_func_ret_type func
    void ← basic BasicType.void
    if equals_type expected void
        then elim lambda_expr [ some l ↦ return_null | none ↦ do r ← ret none; pure tt ]
        else elim lambda_expr [ none ↦ return_null | some l ↦ return_value expected l ]

  -- `if(<a test>) this->jump(target)`
  abbrev jump_unless : M Bool → OmisValue → M (Unit {0})
  jump_unless test target = do done ← test; if done then pure tt else (do j ← jump target; pure tt)

  -- The end of a branch or of a loop's body, whose first block is `block`: jumps to `target` where
  -- there is no terminator.
  unfoldable pub end_block : OmisValue → OmisValue → M (Unit {0})
  end_block block target = do
    active ← get_active_block
    if equals_value active block then pure tt else jump_unless (is_terminator_ins none) target
    tail ← get_block_tail block
    jump_unless (is_terminator_ins tail) target

  -- A branch of `stmt_branch`.
  unfoldable pub branch_stmt : OmisValue → OmisValue → M (Unit {0}) → M (Unit {0})
  branch_stmt block end lambda = do set_active_block block; lambda; end_block block end

  -- omis_module_t::stmt_branch
  unfoldable pub stmt_branch : M OmisValue → M (Unit {0}) → M (Unit {0}) → M (Unit {0})
  stmt_branch lambda_cond lambda_true lambda_false = do
    if_true ← create_block (codes "branch.true")
    if_false ← create_block (codes "branch.false")
    if_end ← create_block (codes "branch.end")
    cond ← condition lambda_cond
    j ← jump_cond cond if_true if_false
    branch_stmt if_true if_end lambda_true
    branch_stmt if_false if_end lambda_false
    set_active_block if_end

  abbrev pub set_points : Option OmisValue → Option OmisValue → M (Unit {0})
  set_points continue_point break_point =
      modify λ s. record s { continue_point = continue_point; break_point = break_point }

  -- stmt_loop, between the settings of `continue_point` and `break_point`
  unfoldable pub loop_parts :
      OmisValue
      → OmisValue
      → OmisValue
      → OmisValue
      → M (Unit {0})
      → M OmisValue
      → M (Unit {0})
      → M (Unit {0})
      → M (Unit {0})
  loop_parts loop_cond loop_step loop_body loop_end lambda_init lambda_cond lambda_step
        lambda_body =
      do
        lambda_init
        j ← jump loop_cond
        set_active_block loop_cond
        cond ← condition lambda_cond
        j₁ ← jump_cond cond loop_body loop_end
        branch_stmt loop_body loop_step lambda_body
        set_active_block loop_step
        lambda_step
        j₂ ← jump loop_cond
        set_active_block loop_end

  -- omis_module_t::stmt_loop
  unfoldable pub stmt_loop : M (Unit {0}) → M OmisValue → M (Unit {0}) → M (Unit {0}) → M (Unit {0})
  stmt_loop lambda_init lambda_cond lambda_step lambda_body = do
    push_scope none
    loop_cond ← create_block (codes "loop.cond")
    loop_step ← create_block (codes "loop.step")
    loop_body ← create_block (codes "loop.body")
    loop_end ← create_block (codes "loop.end")
    old ← get_state
    set_points (some loop_step) (some loop_end)
    loop_parts loop_cond loop_step loop_body loop_end lambda_init lambda_cond lambda_step
        lambda_body
    set_points old.continue_point old.break_point
    pop_scope

  abbrev pub jump_to : Option OmisValue → M (Unit {0})
  jump_to none = return_null
  jump_to (some point) = do j ← jump point; pure tt

  -- omis_module_t::stmt_break, omis_module_t::stmt_continue
  unfoldable pub stmt_break : M (Unit {0})
  stmt_break = do s ← get_state; jump_to s.break_point

  unfoldable pub stmt_continue : M (Unit {0})
  stmt_continue = do s ← get_state; jump_to s.continue_point

  -- omis_module_t::stmt_ensure_tail_ret
  unfoldable pub stmt_ensure_tail_ret : OmisValue → M (Unit {0})
  stmt_ensure_tail_ret func = do
    block ← ask B.get_active_block
    last_op ← ask (B.get_block_tail block)
    ends ← ask (B.is_terminator_ins last_op)
    if ends then pure tt else do
      ret_type ← ask (B.get_func_ret_type func.type.handle)
      void ← basic BasicType.void
      if ret_type == void.handle
          then (do r ← ask (B.ret none); pure tt)
          else do d ← ask (B.get_default_value ret_type); r ← ask (B.ret (some d)); pure tt

  -- A call of an empty `std::function`, which throws.
  abbrev call_empty : M (Unit {0})
  call_empty s = failed empty_call

  -- omis_module_t::make, of one object: the third argument of its `stmt_branch` is null, and its result is not
  -- looked at.
  unfoldable pub make : OmisType → M OmisValue
  make type = do
    len ← get_type_size type
    p ← nullable (call_named (codes "malloc") (len ∷ []))
    branched ← nullable (
        stmt_branch (do z ← value_integer 0 64; ptr ← deref p; comparison BinaryIns.eq ptr z)
          (pure tt) call_empty)
    ptr ← deref p
    bitcast ptr type

  -- omis_module_t::make, of an array
  unfoldable pub make_array : OmisType → OmisValue → M OmisValue
  make_array type count = do
    stride ← get_type_size type
    len ← arithmetic BinaryIns.mul stride count
    p ← nullable (call_named (codes "malloc") (len ∷ []))
    ptr ← deref p
    bitcast ptr type

  -- omis_module_t::drop
  unfoldable pub drop : OmisValue → M OmisValue
  drop ptr = call_named (codes "free") (ptr ∷ [])
