-- ===== src/Coder/NodeLimits.antt =====
-- What the code of one node in src/omis/x-module-coder.cpp demands of its parts, in a module whose scopes name
-- no types.
use eokas_lang.Prelude.{◌≡◌, refl, Bool, true, false, Option, none, some, List, [], ◌∷◌, Bytes}
use eokas_lang.Ast.{TypeNode, type_node, FuncArg}
use eokas_lang.Ast.Oper.{BinaryOper, UnaryOper}
use eokas_lang.Omis.Bridge.{Bridge}
use eokas_lang.Omis.State.{OmisValue, Scope, M, ◌>>=◌}
use eokas_lang.Omis.Scopes.{find_symbol, look_up, get, get_type_symbol}
use eokas_lang.Omis.Control.{both, stmt_break, stmt_continue}
use eokas_lang.Omis.Steady.Rules.{Steady}
use eokas_lang.Omis.Steady.Instructions.{get_ptr_val-Steady}
use eokas_lang.Omis.Steady.Scoped.{both-Steady}
use eokas_lang.Coder.Nodes.{
  encode_type_ref, binary_code, encode_expr_binary, unary_code, encode_expr_unary,
  encode_expr_func_def, encode_expr_func_ref,
}
use eokas_lang.Coder.Encode.{lambda_type}
use eokas_lang.Coder.Demands.{
  AllUntyped, Ready-inside, nothing, faults, Demands, Demands-all, Demands-null, Demands-first,
  Demands-later, MaybeDemands,
}
use eokas_lang.Coder.Encodable.{IsCoded, IsKnown, HasNoType, HasTarget}

module _ ⦃B : Bridge⦄ where
  pub look_up-AllUntyped :
      (name : Bytes) (cs : List Scope)
      → AllUntyped cs
      → look_up (λ (c : Scope). c.types) name cs ≡ none
  unfolding look_up get
  look_up-AllUntyped name [] h = refl
  look_up-AllUntyped name (c ∷ cs) (h, g) = rw (h) (look_up-AllUntyped name cs g)

  pub encode_type_ref-Demands :
      {in_loop : Bool} (t : TypeNode) → Demands in_loop ⊥ (encode_type_ref t)
  unfolding encode_type_ref get_type_symbol find_symbol
  encode_type_ref-Demands {in_loop} (type_node name args) = record {
    at = λ s u.
        rw (◌>>=◌, look_up-AllUntyped name (s.scope ∷ s.parents) (Ready-inside in_loop s u))
          nothing;
  }

  pub lambda_type-Demands :
      (in_loop : Bool) (type : Option TypeNode)
      → MaybeDemands in_loop (HasNoType type) (lambda_type type)
  lambda_type-Demands in_loop none = tt
  lambda_type-Demands in_loop (some type) = encode_type_ref-Demands type

  pub binary_code-Demands :
      {in_loop : Bool} (op : BinaryOper) (l r : OmisValue)
      → Demands in_loop (IsKnown op) (binary_code op l r)
  unfolding binary_code
  binary_code-Demands BinaryOper.unknown l r = Demands-null
  binary_code-Demands _ l r = Demands-all _ tt

  pub unary_code-Demands :
      {in_loop : Bool} (op : UnaryOper) (r : OmisValue)
      → Demands in_loop (IsCoded op) (unary_code op r)
  unfolding unary_code
  unary_code-Demands UnaryOper.pos r = Demands-all _ tt
  unary_code-Demands UnaryOper.neg r = Demands-all _ tt
  unary_code-Demands UnaryOper.not r = Demands-all _ tt
  unary_code-Demands UnaryOper.flip r = Demands-all _ tt
  unary_code-Demands _ r = Demands-null

  pub encode_expr_binary-oper :
      {in_loop : Bool} (op : BinaryOper) (l r : M OmisValue)
      → Steady l
      → Steady r
      → Demands in_loop (IsKnown op) (encode_expr_binary op l r)
  unfolding encode_expr_binary
  encode_expr_binary-oper op l r hl hr = Demands-later (both l r) _ (both-Steady l r hl hr) λ p.
      Demands-later _ _ (get_ptr_val-Steady p.0)
        λ lhs. Demands-later _ _ (get_ptr_val-Steady p.1) λ rhs. binary_code-Demands op lhs rhs

  pub encode_expr_unary-oper :
      {in_loop : Bool} (op : UnaryOper) (r : M OmisValue)
      → Steady r
      → Demands in_loop (IsCoded op) (encode_expr_unary op r)
  unfolding encode_expr_unary
  encode_expr_unary-oper op r h =
      Demands-later r _ h
        λ e. Demands-later _ _ (get_ptr_val-Steady e) λ rhs. unary_code-Demands op rhs

  pub no_argument-Demands :
      {in_loop : Bool} (callee : M OmisValue)
      → Steady callee
      → Demands in_loop ⊥ (encode_expr_func_ref callee none)
  unfolding encode_expr_func_ref
  no_argument-Demands callee h =
      Demands-later callee _ h
        λ e. Demands-later _ _ (get_ptr_val-Steady e) λ func. record { at = λ s u. faults }

  pub func_def-Demands :
      {in_loop : Bool} (t : TypeNode) (args : List FuncArg) (body : M (Unit {0}))
      → Demands in_loop ⊥ (encode_expr_func_def t args body)
  unfolding encode_expr_func_def
  func_def-Demands t args body = Demands-first (encode_type_ref t) _ (encode_type_ref-Demands t)

  pub stmt_break-Demands : (in_loop : Bool) → Demands in_loop (HasTarget in_loop) stmt_break
  unfolding stmt_break
  stmt_break-Demands true = Demands-all _ tt
  stmt_break-Demands false = record { at = λ s u. rw (◌>>=◌, u.1.0) nothing }

  pub stmt_continue-Demands : (in_loop : Bool) → Demands in_loop (HasTarget in_loop) stmt_continue
  unfolding stmt_continue
  stmt_continue-Demands true = Demands-all _ tt
  stmt_continue-Demands false = record { at = λ s u. rw (◌>>=◌, u.1.1) nothing }
