-- ===== src/Parser/Bounded/Definitions.antt =====
-- The defining statements of src/app/parser.cxx within the tokens left.
use eokas_lang.Prelude.{
  ℕ, suc, ◌≡◌, refl, Bool, Bool-cases, inl, inr, true, false, ◌||◌, arith, Bytes, Option, none,
  some, List, [],
}
use eokas_lang.Token.{TokenType, same_type}
use eokas_lang.Ast.{TypeNode, Stmt, Members, no_members}
use eokas_lang.Ast.Int.{ℤ, pos}
use eokas_lang.Parser.Source.{TokenSource, Conversions}
use eokas_lang.Parser.Monad.{◌>>=◌, ◌>>◌, pure, return_null, next_token}
use eokas_lang.Parser.Checks.{require, require_id}
use eokas_lang.Parser.Loops.{Callees}
use eokas_lang.Parser.Literals.{parse_literal_int}
use eokas_lang.Parser.Stmts.Definitions.{
  member_const, member_value, struct_member_rest, parse_stmt_struct_member, parse_stmt_struct_def,
  proc_arg, parse_stmt_proc_def, symbol_type, parse_stmt_symbol_def, EnumState, enum_value,
  enum_member, parse_stmt_enum_def,
}
use eokas_lang.Parser.Bounded.Rules.{
  Keeps, Consumes, Keeps-bind, Keeps-null, Keeps-of_consumes, Consumes-bind, null, Within-weaken,
  next_token-eq_done,
}
use eokas_lang.Parser.Bounded.Checks.{
  check_token-peek, Keeps-token, Keeps-require, Consumes-require, Keeps-require_id,
  Keeps-next_token,
}
use eokas_lang.Parser.Bounded.Loops.{IsBounded, Keeps-separated}
use eokas_lang.Parser.Bounded.Types.{keeps_rules, callee_type, callee_expr}
use eokas_lang.Parser.Bounded.Operators.{parse_literal_int-Consumes}

-- `var` and `val` are not the end of the source.
defines-not_eos :
    (t : TokenType)
    → (same_type t TokenType.var || same_type t TokenType.val) ≡ true
    → same_type t TokenType.eos ≡ false
defines-not_eos t h = ground arith

module _ ⦃src : TokenSource⦄ {n : ℕ} (self : Callees) (b : IsBounded n self) where
  member_value-Keeps : Keeps n (member_value self)
  unfolding member_value
  member_value-Keeps = search (keeps_rules, callee_expr) depth 8

  struct_member_rest-Keeps :
      (is_const : Bool) (members : Members) → Keeps n (struct_member_rest self is_const members)
  unfolding struct_member_rest
  struct_member_rest-Keeps is_const ms =
      search (keeps_rules, callee_type, member_value-Keeps) depth 14

  parse_stmt_struct_member-Keeps :
      (members : Members) → Keeps n (parse_stmt_struct_member self members)
  unfolding parse_stmt_struct_member
  parse_stmt_struct_member-Keeps members =
      Keeps-bind _ _ Keeps-token λ t. by_case (member_const t.type)
    where
      by_case :
          (o : Option Bool)
          → Keeps {A = Members} n
              (elim o [ some c ↦ struct_member_rest self c members | none ↦ return_null ])
      by_case none = Keeps-null
      by_case (some c) = struct_member_rest-Keeps c members

  pub parse_stmt_struct_def-Consumes : Consumes (suc n) (parse_stmt_struct_def self)
  unfolding parse_stmt_struct_def
  parse_stmt_struct_def-Consumes = Consumes-bind _ _ (Consumes-require TokenType.struct refl) λ _.
      Keeps-bind _ _ Keeps-require_id λ name. Keeps-bind _ _ Keeps-next_token λ _.
        Keeps-bind _ _ (Keeps-require TokenType.lcb refl) λ _.
          Keeps-bind _ _
            (Keeps-separated TokenType.rcb refl (parse_stmt_struct_member self) TokenType.semicolon
              refl self.rounds n b.rounds parse_stmt_struct_member-Keeps no_members)
            λ members. search keeps_rules

  proc_arg-Keeps : (args : List (Bytes × TypeNode)) → Keeps n (proc_arg self args)
  unfolding proc_arg
  proc_arg-Keeps args = search (keeps_rules, callee_type) depth 12

  pub parse_stmt_proc_def-Consumes : Consumes (suc n) (parse_stmt_proc_def self)
  unfolding parse_stmt_proc_def
  parse_stmt_proc_def-Consumes = Consumes-bind _ _ (Consumes-require TokenType.proc refl) λ _.
      Keeps-bind _ _ Keeps-require_id λ name. Keeps-bind _ _ Keeps-next_token λ _.
        Keeps-bind _ _ (Keeps-require TokenType.lrb refl) λ _.
          Keeps-bind _ _
            (Keeps-separated TokenType.rrb refl (proc_arg self) TokenType.comma refl self.rounds n
              b.rounds proc_arg-Keeps [])
            λ args. search (keeps_rules, callee_type) depth 8

  symbol_type-Keeps : Keeps n (symbol_type self)
  unfolding symbol_type
  symbol_type-Keeps = search (keeps_rules, callee_type) depth 8

  -- What follows the step over `var` or `val`.
  symbol_rest-Keeps :
      (is_var : Bool)
      → Keeps n (do
        name ← require_id
        next_token
        type ← symbol_type self
        require TokenType.assign
        value ← self.parse_expr
        pure (Stmt.symbol_def name type value is_var))
  symbol_rest-Keeps is_var = search (keeps_rules, symbol_type-Keeps, callee_expr) depth 12

  pub parse_stmt_symbol_def-Consumes : Consumes (suc n) (parse_stmt_symbol_def self)
  unfolding parse_stmt_symbol_def
  parse_stmt_symbol_def-Consumes = record {
    at = λ p i l.
        let t = (src.token p.scanner).type in
        let is_var = same_type t TokenType.var in
        rw (check_token-peek TokenType.var p, ◌>>=◌)
          (rw (check_token-peek TokenType.val p, ◌>>=◌)
            (elim (Bool-cases (is_var || same_type t TokenType.val)) [
              | inl found ↦
                  let (q, e, s) = next_token-eq_done p i in
                  let fewer = s.uses (defines-not_eos t found) in
                  rw found (
                    rw (e, ◌>>=◌, ◌>>◌)
                      (Within-weaken _ _ (omega arith) (omega arith)
                        ((symbol_rest-Keeps is_var).at q s.ready (omega arith))))
              | inr other ↦ rw other (null i (omega arith))
            ]));
  }

module _ ⦃src : TokenSource⦄ ⦃conv : Conversions⦄ {n : ℕ} (self : Callees)
    (b : IsBounded n self) where
  literal_int : Keeps n parse_literal_int
  literal_int = Keeps-of_consumes parse_literal_int parse_literal_int-Consumes

  enum_value-Keeps : (index : ℤ) → Keeps n (enum_value self index)
  unfolding enum_value
  enum_value-Keeps index = search (keeps_rules, literal_int) depth 8

  enum_member-Keeps : (e : EnumState) → Keeps n (enum_member self e)
  unfolding enum_member
  enum_member-Keeps (members, index) = search (keeps_rules, enum_value-Keeps) depth 12

  pub parse_stmt_enum_def-Consumes : Consumes (suc n) (parse_stmt_enum_def self)
  unfolding parse_stmt_enum_def
  parse_stmt_enum_def-Consumes = Consumes-bind _ _ (Consumes-require TokenType.enum refl) λ _.
      Keeps-bind _ _ Keeps-require_id λ name. Keeps-bind _ _ Keeps-next_token λ _.
        Keeps-bind _ _ (Keeps-require TokenType.lcb refl) λ _.
          Keeps-bind _ _
            (Keeps-separated TokenType.rcb refl (enum_member self) TokenType.comma refl self.rounds
              n b.rounds enum_member-Keeps ([], pos 0))
            λ e. search keeps_rules
