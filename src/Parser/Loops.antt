-- ===== src/Parser/Loops.antt =====
-- The entry points through which the methods of src/app/parser.cxx call one another, and the two
-- forms of its loops over lists. Each round of a loop takes a unit of fuel.
use eokas_lang.Prelude.{ℕ, zero, suc, if◌then◌else◌}
use eokas_lang.Token.{TokenType, same_type}
use eokas_lang.Ast.{TypeNode, Expr, Stmt}
use eokas_lang.Parser.Source.{TokenSource}
use eokas_lang.Parser.Monad.{M, ◌>>=◌, pure, give_up, token}
use eokas_lang.Parser.Checks.{accept}

-- The recursive calls that a method makes behind a token that it has read, and a bound on the
-- rounds of its loops.
pub record Callees ⦃src : TokenSource⦄ : Type 0 where
  pub parse_type : M TypeNode
  pub parse_expr : M Expr
  pub parse_stmt : M Stmt
  pub rounds : ℕ

module _ ⦃src : TokenSource⦄ where
  -- while(!check_token(close, false)) { body }
  unfoldable pub until_token : {A : Type 0} → ℕ → TokenType → (A → M A) → A → M A
  until_token zero close body acc = give_up
  until_token (suc fuel) close body acc = do
    closed ← accept close
    if closed then pure acc else (do next ← body acc; until_token fuel close body next)

  -- do { if(token().type == close) break; body } while(check_token(sep, false))
  unfoldable pub separated : {A : Type 0} → ℕ → TokenType → TokenType → (A → M A) → A → M A
  separated zero close sep body acc = give_up
  separated (suc fuel) close sep body acc = do
    t ← token
    if same_type t.type close then pure acc else do
      next ← body acc
      more ← accept sep
      if more then separated fuel close sep body next else pure next
