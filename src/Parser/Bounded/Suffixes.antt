-- ===== src/Parser/Bounded/Suffixes.antt =====
-- Primary expressions, suffixes, objects and arrays of src/app/parser.cxx within the tokens left.
use eokas_lang.Prelude.{ℕ, zero, suc, ◌≤◌, refl, arith}
use eokas_lang.Token.{TokenType}
use eokas_lang.Ast.{Expr, Exprs, Fields, no_exprs, no_fields}
use eokas_lang.Parser.Source.{TokenSource}
use eokas_lang.Parser.Monad.{M, ◌>>=◌}
use eokas_lang.Parser.Loops.{Callees}
use eokas_lang.Parser.Exprs.Suffixes.{
  call_argument, parse_func_call, parse_index_ref, parse_object_ref, parenthesized,
  parse_expr_primary, suffix, suffixes, parse_expr_suffixed, require_assign_or_colon,
  parse_object_field, parse_object_def, array_element, parse_array_def,
}
use eokas_lang.Parser.Bounded.Rules.{
  Keeps, Consumes, Keeps-bind, Keeps-pure, Keeps-of_consumes, Consumes-bind, Consumes-below,
}
use eokas_lang.Parser.Bounded.Checks.{Consumes-accept, Keeps-token, Keeps-require, Consumes-require}
use eokas_lang.Parser.Bounded.Literals.{Consumes-id}
use eokas_lang.Parser.Bounded.Loops.{IsBounded, Keeps-zero, Keeps-until_token, Keeps-separated}
use eokas_lang.Parser.Bounded.Types.{keeps_rules, consumes_rules, callee_type, callee_expr}

module _ ⦃src : TokenSource⦄ where
  Keeps-suffix :
      {k : ℕ} (t : TokenType) (d l r e : M Expr)
      → Keeps k d
      → Keeps k l
      → Keeps k r
      → Keeps k e
      → Keeps k (suffix t d l r e)
  Keeps-suffix TokenType.dot d l r e kd kl kr ke = kd
  Keeps-suffix TokenType.lsb d l r e kd kl kr ke = kl
  Keeps-suffix TokenType.lrb d l r e kd kl kr ke = kr
  Keeps-suffix _ d l r e kd kl kr ke = ke

module _ ⦃src : TokenSource⦄ {n : ℕ} (self : Callees) (b : IsBounded n self) where
  call_argument-Consumes : (args : Exprs) → Consumes n (call_argument self args)
  unfolding call_argument
  call_argument-Consumes args = search (consumes_rules, b.expr)

  parse_func_call-Consumes : (primary : Expr) → Consumes (suc n) (parse_func_call self primary)
  unfolding parse_func_call
  parse_func_call-Consumes primary = Consumes-bind _ _ (Consumes-require TokenType.lrb refl) λ _.
      Keeps-bind _ _
        (Keeps-until_token TokenType.rrb refl (call_argument self) self.rounds n b.rounds
          call_argument-Consumes no_exprs)
        λ args. Keeps-pure _

  parse_index_ref-Consumes : (primary : Expr) → Consumes (suc n) (parse_index_ref self primary)
  unfolding parse_index_ref
  parse_index_ref-Consumes primary =
      Consumes-bind _ _ (Consumes-require TokenType.lsb refl) λ _. search (keeps_rules, callee_expr)

  parse_object_ref-Consumes : (primary : Expr) → Consumes (suc n) (parse_object_ref self primary)
  unfolding parse_object_ref
  parse_object_ref-Consumes primary =
      Consumes-bind _ _ (Consumes-require TokenType.dot refl) λ _. search keeps_rules

  parenthesized-Keeps : Keeps n (parenthesized self)
  unfolding parenthesized
  parenthesized-Keeps = search (keeps_rules, callee_expr)

  parse_expr_primary-Consumes : Consumes (suc n) (parse_expr_primary self)
  unfolding parse_expr_primary
  parse_expr_primary-Consumes =
      Consumes-accept TokenType.lrb _ _ refl parenthesized-Keeps
        (Consumes-id _ λ name. Keeps-pure _)

  -- A suffix, and the suffixes behind it.
  then_suffixes :
      (fuel k : ℕ) (parse : Expr → M Expr) (primary : Expr)
      → suc k ≤ n
      → ((e : Expr) → Consumes (suc n) (parse e))
      → ((e : Expr) → Keeps k (suffixes self fuel e))
      → Keeps (suc k) (parse primary >>= λ e. suffixes self fuel e)
  then_suffixes fuel k parse primary h c rest = Keeps-of_consumes _ (
      Consumes-bind (parse primary) _ (Consumes-below (parse primary) (omega arith) (c primary))
        rest)

  -- The callees of the suffixes are bounded by `n`, and so are the rounds that follow each.
  suffixes-Keeps :
      (fuel k : ℕ) (primary : Expr) → k ≤ fuel → k ≤ n → Keeps k (suffixes self fuel primary)
  unfolding suffixes
  suffixes-Keeps fuel zero primary h g = Keeps-zero _
  suffixes-Keeps zero (suc k) primary h g = absurd (omega arith)
  suffixes-Keeps (suc fuel) (suc k) primary h g = Keeps-bind _ _ Keeps-token λ t.
      let rest = λ (e : Expr). suffixes-Keeps fuel k e (omega arith) (omega arith) in
      Keeps-suffix t.type _ _ _ _
        (then_suffixes fuel k (parse_object_ref self) primary g parse_object_ref-Consumes rest)
        (then_suffixes fuel k (parse_index_ref self) primary g parse_index_ref-Consumes rest)
        (then_suffixes fuel k (parse_func_call self) primary g parse_func_call-Consumes rest)
        (Keeps-pure primary)

  pub parse_expr_suffixed-Consumes : Consumes (suc n) (parse_expr_suffixed self)
  unfolding parse_expr_suffixed
  parse_expr_suffixed-Consumes =
      Consumes-bind _ _ parse_expr_primary-Consumes
        λ primary. suffixes-Keeps self.rounds n primary b.rounds (omega arith)

  require_assign_or_colon-Keeps : Keeps n (require_assign_or_colon self)
  unfolding require_assign_or_colon
  require_assign_or_colon-Keeps = search keeps_rules depth 8

  parse_object_field-Keeps : (members : Fields) → Keeps n (parse_object_field self members)
  unfolding parse_object_field
  parse_object_field-Keeps members =
      search (keeps_rules, require_assign_or_colon-Keeps, callee_expr) depth 8

  pub parse_object_def-Consumes : Consumes (suc n) (parse_object_def self)
  unfolding parse_object_def
  parse_object_def-Consumes = Consumes-bind _ _ (Consumes-require TokenType.make refl) λ _.
      Keeps-bind _ _ (callee_type self b) λ type.
        Keeps-bind _ _ (Keeps-require TokenType.lcb refl) λ _.
          Keeps-bind _ _
            (Keeps-separated TokenType.rcb refl (parse_object_field self) TokenType.comma refl
              self.rounds n b.rounds parse_object_field-Keeps no_fields)
            λ members. search keeps_rules

  array_element-Keeps : (elements : Exprs) → Keeps n (array_element self elements)
  unfolding array_element
  array_element-Keeps elements = search (keeps_rules, callee_expr)

  pub parse_array_def-Consumes : Consumes (suc n) (parse_array_def self)
  unfolding parse_array_def
  parse_array_def-Consumes = Consumes-bind _ _ (Consumes-require TokenType.lsb refl) λ _.
      Keeps-bind _ _
        (Keeps-separated TokenType.rsb refl (array_element self) TokenType.comma refl self.rounds n
          b.rounds array_element-Keeps no_exprs)
        λ elements. search keeps_rules
