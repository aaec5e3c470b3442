-- ===== src/Coder/Parts.antt =====
-- The statements and expressions of src/omis/model.cpp demand what the code of each of their parts does.
use eokas_lang.Prelude.{Bool, false, Option, none, some, Bytes}
use eokas_lang.Prelude.{inl, inr}
use eokas_lang.Ast.Oper.{BinaryOper, UnaryOper}
use eokas_lang.Coder.Nodes.{encode_expr_binary, encode_expr_unary, encode_expr_func_ref}
use eokas_lang.Omis.Bridge.{Bridge, BasicType}
use eokas_lang.Omis.State.{OmisType, OmisValue, M, ◌>>=◌, nullable}
use eokas_lang.Omis.Scopes.{get_value_symbol}
use eokas_lang.Omis.Objects.{equals_type}
use eokas_lang.Omis.Control.{
  both, condition, branch_value, expr_branch, stmt_block, declared_type, stmt_symbol_def,
  stmt_assign, return_value, stmt_return, branch_stmt, stmt_branch,
}
use eokas_lang.Omis.Steady.Rules.{Kept-done, Steady, Steady-get, Steady-deref}
use eokas_lang.Omis.Steady.Objects.{
  basic-Steady, get_func_ret_type-Steady, get_func_arg_type-Steady,
}
use eokas_lang.Omis.Steady.Instructions.{
  get_value_symbol-Steady, set_active_block-Steady, get_ptr_val-Steady,
}
use eokas_lang.Omis.Steady.Scoped.{Outcome-cases}
use eokas_lang.Omis.Steady.Control.{
  code, MaybeSteady, condition-Steady, branch_value-Steady, declared_type-Steady,
  branch_stmt-Steady,
}
use eokas_lang.Coder.Demands.{
  Ready, Ready-run, Ready-inside, Shows, Shows-done, shows, nothing, faults, Demands, Demands-all,
  Demands-option, Demands-if, Demands-null, Demands-first, Demands-later, Demands-push,
  Demands-modify, MaybeDemands,
}

module _ ⦃B : Bridge⦄ {in_loop : Bool} {P : Type 0} where
  pub ruleset parts = (
    code, condition-Steady, branch_value-Steady, branch_stmt-Steady, Demands-first, Demands-later,
  )

  pub condition-Demands : (c : M OmisValue) → Demands in_loop P c → Demands in_loop P (condition c)
  unfolding condition
  condition-Demands c h = Demands-first c _ h

  branch_value-Demands :
      (block end : OmisValue) (m : M OmisValue)
      → Demands in_loop P m
      → Demands in_loop P (branch_value block end m)
  unfolding branch_value
  branch_value-Demands block end m h =
      Demands-later _ _ (set_active_block-Steady block) λ _. Demands-first m _ h

  pub branch_stmt-Demands :
      (block end : OmisValue) (m : M (Unit {0}))
      → Demands in_loop P m
      → Demands in_loop P (branch_stmt block end m)
  unfolding branch_stmt
  branch_stmt-Demands block end m h =
      Demands-later _ _ (set_active_block-Steady block) λ _. Demands-first m _ h

  module _ (c t f : M OmisValue) (hc : Steady c) (ht : Steady t) where
    pub expr_branch-cond : Demands in_loop P c → Demands in_loop P (expr_branch c t f)
    unfolding expr_branch
    expr_branch-cond h = search (parts, condition-Demands) depth 30

    pub expr_branch-true : Demands in_loop P t → Demands in_loop P (expr_branch c t f)
    unfolding expr_branch
    expr_branch-true h = search (parts, branch_value-Demands) depth 30

    pub expr_branch-false : Demands in_loop P f → Demands in_loop P (expr_branch c t f)
    unfolding expr_branch
    expr_branch-false h = search (parts, branch_value-Demands) depth 30

  module _ (c : M OmisValue) (t f : M (Unit {0})) (hc : Steady c) (ht : Steady t) where
    pub stmt_branch-cond : Demands in_loop P c → Demands in_loop P (stmt_branch c t f)
    unfolding stmt_branch
    stmt_branch-cond h = search (parts, condition-Demands) depth 30

    pub stmt_branch-true : Demands in_loop P t → Demands in_loop P (stmt_branch c t f)
    unfolding stmt_branch
    stmt_branch-true h = search (parts, branch_stmt-Demands) depth 30

    pub stmt_branch-false : Demands in_loop P f → Demands in_loop P (stmt_branch c t f)
    unfolding stmt_branch
    stmt_branch-false h = search (parts, branch_stmt-Demands) depth 30

  module _ {A C : Type 0} (m : M A) (n : M C) where
    -- The pair of both results shows what the first one does, and what the second one does.
    both-left : Demands in_loop P m → Demands in_loop P (both m n)
    unfolding both
    both-left h = record {
      at = λ s u. elim (Outcome-cases (m s)) [
        | inl (a, t, e) ↦ (Demands-all (both m n) (Shows-done (h.at s u) e)).at s u
        | inr (inl (t, e)) ↦
            rw (e, nullable, ◌>>=◌)
              (elim (Outcome-cases (n t)) [
                | inl (c, v, g) ↦ rw (g, nullable, ◌>>=◌) nothing
                | inr (inl (v, g)) ↦ rw (g, nullable, ◌>>=◌) nothing
                | inr (inr (x, g)) ↦ rw (g, nullable, ◌>>=◌) faults
              ])
        | inr (inr (x, e)) ↦ rw (e, nullable, ◌>>=◌) faults
      ];
    }

    both-right : Steady m → Demands in_loop P n → Demands in_loop P (both m n)
    unfolding both
    both-right hm h = record {
      at = λ s u. elim (Outcome-cases (m s)) [
        | inl (a, t, e) ↦
            rw (e, nullable, ◌>>=◌)
              (elim (Outcome-cases (n t)) [
                | inl (c, v, g) ↦
                    rw (g, nullable, ◌>>=◌)
                      (shows (Shows-done (h.at t (Ready-run in_loop (Kept-done (hm.at s) e) u)) g))
                | inr (inl (v, g)) ↦ rw (g, nullable, ◌>>=◌) nothing
                | inr (inr (x, g)) ↦ rw (g, nullable, ◌>>=◌) faults
              ])
        | inr (inl (t, e)) ↦
            rw (e, nullable, ◌>>=◌)
              (elim (Outcome-cases (n t)) [
                | inl (c, v, g) ↦ rw (g, nullable, ◌>>=◌) nothing
                | inr (inl (v, g)) ↦ rw (g, nullable, ◌>>=◌) nothing
                | inr (inr (x, g)) ↦ rw (g, nullable, ◌>>=◌) faults
              ])
        | inr (inr (x, e)) ↦ rw (e, nullable, ◌>>=◌) faults
      ];
    }

  module _ (l r : M OmisValue) where
    pub stmt_assign-left : Demands in_loop P l → Demands in_loop P (stmt_assign l r)
    unfolding stmt_assign
    stmt_assign-left h = Demands-first (both l r) _ (both-left l r h)

    pub stmt_assign-right : Steady l → Demands in_loop P r → Demands in_loop P (stmt_assign l r)
    unfolding stmt_assign
    stmt_assign-right hl h = Demands-first (both l r) _ (both-right l r hl h)

    pub encode_expr_binary-left :
        (op : BinaryOper) → Demands in_loop P l → Demands in_loop P (encode_expr_binary op l r)
    unfolding encode_expr_binary
    encode_expr_binary-left op h = Demands-first (both l r) _ (both-left l r h)

    pub encode_expr_binary-right :
        (op : BinaryOper)
        → Steady l
        → Demands in_loop P r
        → Demands in_loop P (encode_expr_binary op l r)
    unfolding encode_expr_binary
    encode_expr_binary-right op hl h = Demands-first (both l r) _ (both-right l r hl h)

  pub encode_expr_unary-right :
      (op : UnaryOper) (r : M OmisValue)
      → Demands in_loop P r
      → Demands in_loop P (encode_expr_unary op r)
  unfolding encode_expr_unary
  encode_expr_unary-right op r h = Demands-first r _ h

  pub stmt_block-body :
      (body : M (Unit {0})) → Demands in_loop P body → Demands in_loop P (stmt_block body)
  unfolding stmt_block
  stmt_block-body body h = Demands-push none _ (Demands-first body _ h)

  declared_type-Demands :
      (t : Option (M OmisType)) → MaybeDemands in_loop P t → Demands in_loop P (declared_type t)
  unfolding declared_type
  declared_type-Demands none h = Demands-all _ h
  declared_type-Demands (some m) h = Demands-first m _ h

  module _ (name : Bytes) (t : Option (M OmisType)) (v : M OmisValue) where
    pub stmt_symbol_def-type :
        MaybeDemands in_loop P t → Demands in_loop P (stmt_symbol_def name t v)
    unfolding stmt_symbol_def
    stmt_symbol_def-type h =
        Demands-later (get_value_symbol name false) _ (get_value_symbol-Steady name false) λ found.
          Demands-option found _ _ (λ _. Demands-null)
            (Demands-first (declared_type t) _ (declared_type-Demands t h))

    pub stmt_symbol_def-value :
        MaybeSteady t → Demands in_loop P v → Demands in_loop P (stmt_symbol_def name t v)
    unfolding stmt_symbol_def
    stmt_symbol_def-value ht h =
        Demands-later (get_value_symbol name false) _ (get_value_symbol-Steady name false) λ found.
          Demands-option found _ _ (λ _. Demands-null)
            (Demands-later (declared_type t) _ (declared_type-Steady t ht)
              λ dtype. Demands-first v _ h)

  return_value-Demands :
      (expected : OmisType) (v : M OmisValue)
      → Demands in_loop P v
      → Demands in_loop P (return_value expected v)
  unfolding return_value
  return_value-Demands expected v h = Demands-first v _ h

  pub stmt_return-value :
      (v : Option (M OmisValue)) → MaybeDemands in_loop P v → Demands in_loop P (stmt_return v)
  unfolding stmt_return
  stmt_return-value none h = Demands-all (stmt_return none) h
  stmt_return-value (some v) h = Demands-later _ _ Steady-get λ s.
      Demands-later _ _ (Steady-deref s.scope.func) λ func.
        Demands-later _ _ (get_func_ret_type-Steady func) λ expected.
          Demands-later _ _ (basic-Steady BasicType.void) λ void.
            Demands-if (equals_type expected void) _ _ Demands-null
              (return_value-Demands expected v h)

  module _ (callee : M OmisValue) where
    pub encode_expr_func_ref-callee :
        (arg : Option (M OmisValue))
        → Demands in_loop P callee
        → Demands in_loop P (encode_expr_func_ref callee arg)
    unfolding encode_expr_func_ref
    encode_expr_func_ref-callee none h = Demands-first callee _ h
    encode_expr_func_ref-callee (some arg) h = Demands-first callee _ h

    pub encode_expr_func_ref-arg :
        (arg : M OmisValue)
        → Steady callee
        → Demands in_loop P arg
        → Demands in_loop P (encode_expr_func_ref callee (some arg))
    unfolding encode_expr_func_ref
    encode_expr_func_ref-arg arg hc h = Demands-later callee _ hc λ e.
        Demands-later _ _ (get_ptr_val-Steady e)
          λ f. Demands-later _ _ (get_func_arg_type-Steady f 0) λ t. Demands-first arg _ h
