-- ===== src/Omis/Steady/Control.antt =====
-- The statements and the branching expression of src/omis/model.cpp restore the scopes, if the code
-- of their parts does.
use eokas_lang.Prelude.{refl, false, Option, none, some, Bytes, codes}
use eokas_lang.Omis.Bridge.{Bridge}
use eokas_lang.Omis.Interned.{Grows-of, Grows-trans}
use eokas_lang.Omis.State.{OmisType, OmisValue, M, get_state}
use eokas_lang.Omis.Scopes.{get_value_symbol}
use eokas_lang.Omis.Instructions.{create_block, set_active_block}
use eokas_lang.Omis.Control.{
  both, condition, branch_value, expr_branch, stmt_block, symbol_type, declared_type,
  stmt_symbol_def, stmt_assign, return_value, stmt_return, end_block, branch_stmt, stmt_branch,
  loop_parts, stmt_loop, stmt_break, stmt_continue, stmt_ensure_tail_ret, jump_to,
}
use eokas_lang.Omis.Steady.Rules.{
  Steady, Steady-pure, Steady-null, Steady-deref, Steady-ask, Steady-get, Steady-if, Steady-option,
  Steady-bind,
}
use eokas_lang.Omis.Steady.Objects.{
  basic-Steady, can_losslessly_bitcast-Steady, get_func_ret_type-Steady,
}
use eokas_lang.Omis.Steady.Instructions.{
  get_value_symbol-Steady, create_block-Steady, get_active_block-Steady, set_active_block-Steady,
  get_block_tail-Steady, is_terminator_ins-Steady, alloc-Steady, store-Steady, jump-Steady,
  jump_cond-Steady, phi-Steady, ret-Steady, get_ptr_val-Steady, get_ptr_ref-Steady,
}
use eokas_lang.Omis.Steady.Scoped.{
  Below-bind, Below-bind_loop, Below-pop, Below-pop_loop, Steady-push, both-Steady,
  add_value_symbol-Steady,
}

module _ ⦃B : Bridge⦄ where
  pub ruleset monad =
      (Steady-bind, Steady-pure, Steady-null, Steady-deref, Steady-ask, Steady-if, Steady-get)

  pub ruleset code = (
    monad, basic-Steady, create_block-Steady, set_active_block-Steady, get_active_block-Steady,
    get_block_tail-Steady, is_terminator_ins-Steady, jump-Steady, jump_cond-Steady,
    get_ptr_val-Steady,
  )

  pub condition-Steady : (c : M OmisValue) → Steady c → Steady (condition c)
  unfolding condition
  condition-Steady c h =
      Steady-bind c _ h λ v. search (monad, basic-Steady, get_ptr_val-Steady) depth 10

  pub branch_value-Steady :
      (block end : OmisValue) (m : M OmisValue) → Steady m → Steady (branch_value block end m)
  unfolding branch_value
  branch_value-Steady block end m h =
      Steady-bind (set_active_block block) _ (set_active_block-Steady block)
        λ _. Steady-bind m _ h λ v. search code depth 10

  pub expr_branch-Steady :
      (c t f : M OmisValue) → Steady c → Steady t → Steady f → Steady (expr_branch c t f)
  unfolding expr_branch
  expr_branch-Steady c t f hc ht hf =
      search (code, condition-Steady, branch_value-Steady, phi-Steady) depth 30

  pub stmt_block-Steady : (body : M (Unit {0})) → Steady body → Steady (stmt_block body)
  unfolding stmt_block
  stmt_block-Steady body h = Steady-push none _ λ s. Below-bind s body _ h λ _. Below-pop s

  pub symbol_type-Steady :
      (dtype : Option OmisType) (vtype : OmisType) → Steady (symbol_type dtype vtype)
  unfolding symbol_type
  symbol_type-Steady none vtype = Steady-pure vtype
  symbol_type-Steady (some stype) vtype = search (monad, can_losslessly_bitcast-Steady) depth 10

  -- The code of a part that may be missing.
  abbrev pub MaybeSteady : {A : Type 0} → Option (M A) → Type 0
  MaybeSteady none = Unit
  MaybeSteady (some m) = Steady m

  pub declared_type-Steady : (t : Option (M OmisType)) → MaybeSteady t → Steady (declared_type t)
  unfolding declared_type
  declared_type-Steady none h = Steady-pure none
  declared_type-Steady (some m) h = Steady-bind m _ h λ t. Steady-pure (some t)

  pub stmt_symbol_def-Steady :
      (name : Bytes) (t : Option (M OmisType)) (v : M OmisValue)
      → MaybeSteady t
      → Steady v
      → Steady (stmt_symbol_def name t v)
  unfolding stmt_symbol_def
  stmt_symbol_def-Steady name t v ht hv =
      Steady-bind (get_value_symbol name false) _ (get_value_symbol-Steady name false) λ found.
        Steady-option found _ _ (λ _. Steady-null)
          (Steady-bind (declared_type t) _ (declared_type-Steady t ht) λ dtype.
            search
              (
                monad, get_ptr_val-Steady, symbol_type-Steady, basic-Steady, alloc-Steady,
                add_value_symbol-Steady,
              )
              depth 20)

  pub stmt_assign-Steady : (l r : M OmisValue) → Steady l → Steady r → Steady (stmt_assign l r)
  unfolding stmt_assign
  stmt_assign-Steady l r hl hr =
      Steady-bind (both l r) _ (both-Steady l r hl hr)
        λ p. search (monad, get_ptr_ref-Steady, get_ptr_val-Steady, store-Steady) depth 12

  return_value-Steady :
      (expected : OmisType) (v : M OmisValue) → Steady v → Steady (return_value expected v)
  unfolding return_value
  return_value-Steady expected v h =
      search (monad, get_ptr_val-Steady, can_losslessly_bitcast-Steady, ret-Steady) depth 16

  pub stmt_return-Steady : (v : Option (M OmisValue)) → MaybeSteady v → Steady (stmt_return v)
  unfolding stmt_return
  stmt_return-Steady none h =
      search (monad, get_func_ret_type-Steady, basic-Steady, ret-Steady) depth 16
  stmt_return-Steady (some v) h =
      search (monad, get_func_ret_type-Steady, basic-Steady, return_value-Steady) depth 16

  end_block-Steady : (block target : OmisValue) → Steady (end_block block target)
  unfolding end_block
  end_block-Steady block target = search code depth 20

  pub branch_stmt-Steady :
      (block end : OmisValue) (m : M (Unit {0})) → Steady m → Steady (branch_stmt block end m)
  unfolding branch_stmt
  branch_stmt-Steady block end m h =
      search (monad, set_active_block-Steady, end_block-Steady) depth 10

  pub stmt_branch-Steady :
      (c : M OmisValue) (t f : M (Unit {0}))
      → Steady c
      → Steady t
      → Steady f
      → Steady (stmt_branch c t f)
  unfolding stmt_branch
  stmt_branch-Steady c t f hc ht hf = search (code, condition-Steady, branch_stmt-Steady) depth 24

  loop_parts-Steady :
      (lc ls lb le : OmisValue) (i : M (Unit {0})) (c : M OmisValue) (st b : M (Unit {0}))
      → Steady i
      → Steady c
      → Steady st
      → Steady b
      → Steady (loop_parts lc ls lb le i c st b)
  unfolding loop_parts
  loop_parts-Steady lc ls lb le i c st b hi hc hs hb =
      search (code, condition-Steady, branch_stmt-Steady) depth 30

  pub stmt_loop-Steady :
      (i : M (Unit {0})) (c : M OmisValue) (st b : M (Unit {0}))
      → Steady i
      → Steady c
      → Steady st
      → Steady b
      → Steady (stmt_loop i c st b)
  unfolding stmt_loop
  stmt_loop-Steady i c st b hi hc hs hb = Steady-push none _ λ s.
      Below-bind s (create_block (codes "loop.cond")) _ (create_block-Steady _) λ lc.
        Below-bind s (create_block (codes "loop.step")) _ (create_block-Steady _) λ ls.
          Below-bind s (create_block (codes "loop.body")) _ (create_block-Steady _) λ lb.
            Below-bind s (create_block (codes "loop.end")) _ (create_block-Steady _) λ le. record {
              at = λ t e.
                  (Below-bind_loop s (loop_parts lc ls lb le i c st b) _
                      (loop_parts-Steady lc ls lb le i c st b hi hc hs hb)
                      λ _.
                        Below-pop_loop s t.continue_point t.break_point e.continue_point
                          e.break_point).at
                    (record t { continue_point = some ls; break_point = some le })
                    (record {
                      parents = e.parents;
                      grows = Grows-trans e.grows (Grows-of refl refl refl);
                    });
            }

  pub stmt_break-Steady : Steady stmt_break
  unfolding stmt_break
  stmt_break-Steady = Steady-bind get_state _ Steady-get λ s. jumps s.break_point
    where
      jumps : (o : Option OmisValue) → Steady (jump_to o)
      jumps none = Steady-null
      jumps (some v) = search (monad, jump-Steady)

  pub stmt_continue-Steady : Steady stmt_continue
  unfolding stmt_continue
  stmt_continue-Steady = Steady-bind get_state _ Steady-get λ s. jumps s.continue_point
    where
      jumps : (o : Option OmisValue) → Steady (jump_to o)
      jumps none = Steady-null
      jumps (some v) = search (monad, jump-Steady)

  pub stmt_ensure_tail_ret-Steady : (func : OmisValue) → Steady (stmt_ensure_tail_ret func)
  unfolding stmt_ensure_tail_ret
  stmt_ensure_tail_ret-Steady func = search (monad, basic-Steady) depth 20
