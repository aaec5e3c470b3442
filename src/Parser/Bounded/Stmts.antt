-- ===== src/Parser/Bounded/Stmts.antt =====
-- The other statements of src/app/parser.cxx within the tokens left.
use eokas_lang.Prelude.{ℕ, suc, refl, Bool, true, false, ◌||◌, arith, if◌then◌else◌, none, some}
use eokas_lang.Token.{TokenType, same_type}
use eokas_lang.Ast.{Expr, Stmt, Stmts, no_stmts}
use eokas_lang.Parser.Source.{TokenSource, Conversions}
use eokas_lang.Parser.Monad.{M, ◌>>=◌, ◌>>◌, pure, return_null}
use eokas_lang.Parser.Checks.{accept, error_token_unexpected}
use eokas_lang.Parser.Loops.{Callees}
use eokas_lang.Parser.Stmts.Control.{
  is_call, parse_stmt_continue, parse_stmt_break, parse_stmt_return, else_branch, parse_stmt_if,
  parse_stmt_assign_or_call, parse_stmt_loop_init, parse_stmt_loop_cond, parse_stmt_loop_step,
  parse_stmt_loop, block_stmt, parse_stmt_block, stmt_case, end_stmt, parse_stmt,
}
use eokas_lang.Parser.Bounded.Rules.{
  Keeps, Consumes, Keeps-bind, Keeps-pure, Consumes-null, Consumes-if, Keeps-of_consumes,
  Consumes-below, Consumes-bind, Consumes-bind_keeps, Consumes-nullable,
}
use eokas_lang.Parser.Bounded.Checks.{
  Keeps-token, Keeps-require, Consumes-require, Keeps-check_token,
}
use eokas_lang.Parser.Bounded.Loops.{IsBounded, Keeps-until_token}
use eokas_lang.Parser.Bounded.Types.{keeps_rules, consumes_rules, callee_expr, callee_stmt}
use eokas_lang.Parser.Bounded.Suffixes.{parse_expr_suffixed-Consumes}
use eokas_lang.Parser.Bounded.Definitions.{
  parse_stmt_struct_def-Consumes, parse_stmt_enum_def-Consumes, parse_stmt_proc_def-Consumes,
  parse_stmt_symbol_def-Consumes,
}

module _ ⦃src : TokenSource⦄ {n : ℕ} (self : Callees) (b : IsBounded n self) where
  parse_stmt_continue-Consumes : Consumes (suc n) (parse_stmt_continue self)
  unfolding parse_stmt_continue
  parse_stmt_continue-Consumes =
      Consumes-bind _ _ (Consumes-require TokenType.continue refl) λ _. Keeps-pure _

  parse_stmt_break-Consumes : Consumes (suc n) (parse_stmt_break self)
  unfolding parse_stmt_break
  parse_stmt_break-Consumes =
      Consumes-bind _ _ (Consumes-require TokenType.break refl) λ _. Keeps-pure _

  parse_stmt_return-Consumes : Consumes (suc n) (parse_stmt_return self)
  unfolding parse_stmt_return
  parse_stmt_return-Consumes =
      Consumes-bind _ _ (Consumes-require TokenType.return refl)
        λ _. search (keeps_rules, Keeps-check_token, callee_expr) depth 8

  else_branch-Keeps : Keeps n (else_branch self)
  unfolding else_branch
  else_branch-Keeps = search (keeps_rules, callee_stmt) depth 8

  parse_stmt_if-Consumes : Consumes (suc n) (parse_stmt_if self)
  unfolding parse_stmt_if
  parse_stmt_if-Consumes =
      Consumes-bind _ _ (Consumes-require TokenType.if_kw refl)
        λ _. search (keeps_rules, callee_expr, callee_stmt, else_branch-Keeps) depth 12

  assign_or_call_rest :
      (left : Expr)
      → Keeps n (do
        assigns ← accept TokenType.assign
        if assigns
            then (do right ← self.parse_expr; pure (Stmt.assign left right))
            else if is_call left
            then pure (Stmt.invoke left)
            else (do error_token_unexpected; return_null))
  assign_or_call_rest left = search (keeps_rules, callee_expr) depth 8

  parse_stmt_assign_or_call-Consumes : Consumes (suc n) (parse_stmt_assign_or_call self)
  unfolding parse_stmt_assign_or_call
  parse_stmt_assign_or_call-Consumes =
      Consumes-bind _ _ (parse_expr_suffixed-Consumes self b) assign_or_call_rest

  parse_stmt_loop_init-Consumes : Consumes (suc n) (parse_stmt_loop_init self)
  unfolding parse_stmt_loop_init
  parse_stmt_loop_init-Consumes =
      Consumes-bind _ _ (parse_stmt_symbol_def-Consumes self b) λ stmt. search keeps_rules

  parse_stmt_loop_cond-Keeps : Keeps n (parse_stmt_loop_cond self)
  unfolding parse_stmt_loop_cond
  parse_stmt_loop_cond-Keeps = search (keeps_rules, callee_expr)

  parse_stmt_loop_step-Consumes : Consumes (suc n) (parse_stmt_loop_step self)
  unfolding parse_stmt_loop_step
  parse_stmt_loop_step-Consumes = Consumes-bind_keeps _ _ Keeps-token λ t.
      Consumes-if (same_type t.type TokenType.var || same_type t.type TokenType.val) _ _
        (parse_stmt_symbol_def-Consumes self b) parse_stmt_assign_or_call-Consumes

  below : {A : Type 0} (m : M A) → Consumes (suc n) m → Keeps n m
  below m c = Keeps-of_consumes m (Consumes-below m (omega arith) c)

  parse_stmt_loop-Consumes : Consumes (suc n) (parse_stmt_loop self)
  unfolding parse_stmt_loop
  parse_stmt_loop-Consumes = Consumes-bind _ _ (Consumes-require TokenType.loop refl) λ _.
      Keeps-bind _ _ (Keeps-require TokenType.lrb refl) λ _.
        Keeps-bind _ _ (below _ parse_stmt_loop_init-Consumes) λ init.
          Keeps-bind _ _ parse_stmt_loop_cond-Keeps λ cond.
            Keeps-bind _ _ (below _ parse_stmt_loop_step-Consumes)
              λ step. search (keeps_rules, callee_stmt)

  block_stmt-Consumes : (stmts : Stmts) → Consumes n (block_stmt self stmts)
  unfolding block_stmt
  block_stmt-Consumes stmts = search (consumes_rules, b.stmt)

  parse_stmt_block-Consumes : Consumes (suc n) (parse_stmt_block self)
  unfolding parse_stmt_block
  parse_stmt_block-Consumes = Consumes-bind _ _ (Consumes-require TokenType.lcb refl) λ _.
      Keeps-bind _ _
        (Keeps-until_token TokenType.rcb refl (block_stmt self) self.rounds n b.rounds
          block_stmt-Consumes no_stmts)
        λ stmts. Keeps-pure _

module _ ⦃src : TokenSource⦄ ⦃conv : Conversions⦄ {n : ℕ} (self : Callees)
    (b : IsBounded n self) where
  stmt_case-Consumes : (t : TokenType) → Consumes (suc n) (stmt_case self t).0
  unfolding stmt_case
  stmt_case-Consumes TokenType.struct = parse_stmt_struct_def-Consumes self b
  stmt_case-Consumes TokenType.enum = parse_stmt_enum_def-Consumes self b
  stmt_case-Consumes TokenType.proc = parse_stmt_proc_def-Consumes self b
  stmt_case-Consumes TokenType.var = parse_stmt_symbol_def-Consumes self b
  stmt_case-Consumes TokenType.val = parse_stmt_symbol_def-Consumes self b
  stmt_case-Consumes TokenType.break = parse_stmt_break-Consumes self b
  stmt_case-Consumes TokenType.continue = parse_stmt_continue-Consumes self b
  stmt_case-Consumes TokenType.return = parse_stmt_return-Consumes self b
  stmt_case-Consumes TokenType.if_kw = parse_stmt_if-Consumes self b
  stmt_case-Consumes TokenType.loop = parse_stmt_loop-Consumes self b
  stmt_case-Consumes TokenType.lcb = parse_stmt_block-Consumes self b
  stmt_case-Consumes _ = parse_stmt_assign_or_call-Consumes self b

  end_stmt-some : {k : ℕ} (semicolon : Bool) (s : Stmt) → Keeps k (end_stmt self semicolon (some s))
  unfolding end_stmt
  end_stmt-some semicolon s = search keeps_rules

  end_stmt-none : {k : ℕ} (semicolon : Bool) → Consumes k (end_stmt self semicolon none)
  unfolding end_stmt
  end_stmt-none true =
      Consumes-bind_keeps _ _ (Keeps-require TokenType.semicolon refl) λ _. Consumes-null
  end_stmt-none false = Consumes-null

  pub parse_stmt-Consumes : Consumes (suc n) (parse_stmt self)
  unfolding parse_stmt
  parse_stmt-Consumes = Consumes-bind_keeps _ _ Keeps-token λ t.
      Consumes-nullable (stmt_case self t.type).0 (end_stmt self (stmt_case self t.type).1)
        (stmt_case-Consumes t.type) (end_stmt-some (stmt_case self t.type).1)
        (end_stmt-none (stmt_case self t.type).1)
