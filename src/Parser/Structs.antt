-- ===== src/Parser/Structs.antt =====
-- What `parse_stmt_struct_def` of src/app/parser.cxx does with members.
use eokas_lang.Prelude.{◌≡◌, refl, ℕ, zero, suc, Bool, Option, none, some, Bytes}
use eokas_lang.Token.{TokenType}
use eokas_lang.Ast.{Stmt, Members, no_members}
use eokas_lang.Parser.Source.{TokenSource}
use eokas_lang.Parser.Monad.{Parser, done, M, token, return_null, next_token}
use eokas_lang.Parser.Checks.{require, require_id}
use eokas_lang.Parser.Loops.{Callees, separated}
use eokas_lang.Parser.Stmts.Definitions.{
  member_const, struct_member_rest, parse_stmt_struct_member, parse_stmt_struct_def,
}
use eokas_lang.Parser.Yields.{
  Always, Always-pure, Always-null, Always-if, Always-give_up, Always-bind_never, Always-bind,
  Always-bind_with, Yields-done,
}

member_const-none : (t : TokenType) → member_const t ≡ none
unfolding member_const
member_const-none TokenType.val = refl
member_const-none _ = refl

module _ ⦃src : TokenSource⦄ where
  -- A loop whose body returns nothing ends with the value that it began with.
  separated-Always :
      {A : Type 0} (fuel : ℕ) (close sep : TokenType) (body : A → M A)
      → ((a : A) → Always (λ _. ⊥) (body a))
      → (acc : A) → Always (λ a. a ≡ acc) (separated fuel close sep body acc)
  unfolding separated
  separated-Always zero close sep body never acc = Always-give_up
  separated-Always (suc fuel) close sep body never acc =
      search (Always-bind, Always-if, Always-pure, Always-bind_never, never, refl) depth 8

  module _ (self : Callees) where
    parse_stmt_struct_member-never :
        (ms : Members) → Always (λ _. ⊥) (parse_stmt_struct_member self ms)
    unfolding parse_stmt_struct_member
    parse_stmt_struct_member-never ms =
        Always-bind token _ λ t. by_case (member_const t.type) (member_const-none t.type)
      where
        by_case :
            (o : Option Bool)
            → o ≡ none
            → Always {A = Members}
                (λ _. ⊥)
                (elim o [ some c ↦ struct_member_rest self c ms | none ↦ return_null ])
        by_case none e = Always-null
        by_case (some c) e = cc

    -- A struct definition that the parser accepts has no members, whatever its text: the switch over
    -- `var` and `val` falls through to its default, so `parse_stmt_struct_member` never succeeds.
    pub parse_stmt_struct_def-members :
        (p q : Parser) (s : Stmt)
        → parse_stmt_struct_def self p ≡ done s q
        → (name : Bytes) × (s ≡ Stmt.struct_def name no_members)
    unfolding parse_stmt_struct_def
    parse_stmt_struct_def-members p q s e = Yields-done (all.at p) e
      where
        all :
            Always
              (λ s. (name : Bytes) × (s ≡ Stmt.struct_def name no_members))
              (parse_stmt_struct_def self)
        all = Always-bind (require TokenType.struct) _ λ _. Always-bind require_id _ λ name.
            Always-bind next_token _ λ _. Always-bind (require TokenType.lcb) _ λ _.
              Always-bind_with
                (separated self.rounds TokenType.rcb TokenType.semicolon
                  (parse_stmt_struct_member self) no_members)
                _
                (separated-Always self.rounds TokenType.rcb TokenType.semicolon
                  (parse_stmt_struct_member self) parse_stmt_struct_member-never no_members)
                λ ms h. Always-bind (require TokenType.rcb) _ λ _. Always-pure _ (name, rw h)
