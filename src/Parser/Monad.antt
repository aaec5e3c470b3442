-- ===== src/Parser/Monad.antt =====
-- The state of `parser_t` of src/app/parser.h, and its methods as actions on the state.
-- The factory, which only owns the nodes, is not part of it.
use eokas_lang.Prelude.{
  ℕ, Option, none, some, Bytes, Run, ok, fault, Fault, null_deref, out_of_fuel,
}
use eokas_lang.Token.{Token}
use eokas_lang.Parser.Source.{TokenSource}

-- The texts of `error`, and the place that is printed with them.
pub data Message : Type 0 where
  unexpected_eos : Message
  unexpected_token : Bytes → Message
  import_exists : Bytes → Message
  export_exists : Bytes → Message
  type_arguments_empty : Message

pub record ErrorMessage : Type 0 where
  pub message : Message
  pub line : ℕ
  pub column : ℕ

pub record Parser ⦃src : TokenSource⦄ : Type 0 where
  pub scanner : src.State
  pub errormsg : Option ErrorMessage

-- How a method ends: with a node (or `true`), with a null pointer (or `false`), or with a fault.
pub data Outcome (S A : Type 0) : Type 0 where
  done : A → S → Outcome S A
  null : S → Outcome S A
  failed : Fault → Outcome S A

module _ ⦃src : TokenSource⦄ where
  abbrev pub M : Type 0 → Type 0
  M A = Parser → Outcome Parser A

  infixl 5 ◌>>=◌ ◌>>◌
  abbrev pub ◌>>=◌ : {A B : Type 0} → M A → (A → M B) → M B
  ◌>>=◌ m f p = elim (m p) [ done a q ↦ f a q | null q ↦ null q | failed e ↦ failed e ]

  abbrev pub ◌>>◌ : {B : Type 0} → M (Unit {0}) → M B → M B
  m >> k = m >>= λ _. k

  abbrev pub pure : {A : Type 0} → A → M A
  pure a p = done a p

  -- `return nullptr`
  abbrev pub return_null : {A : Type 0} → M A
  return_null p = null p

  -- A null pointer dereferenced.
  abbrev pub crash : {A : Type 0} → M A
  crash p = failed null_deref

  -- The bound of a loop reached: in no run of the program.
  abbrev pub give_up : {A : Type 0} → M A
  give_up p = failed out_of_fuel

  -- A call whose null result the caller looks at.
  abbrev pub nullable : {A : Type 0} → M A → M (Option A)
  nullable m p = elim (m p) [
    | done a q ↦ done (some a) q
    | null q ↦ done none q
    | failed e ↦ failed e
  ]

  -- parser_t::token
  abbrev pub token : M Token
  token p = done (src.token p.scanner) p

  abbrev advance_to : Parser → Run src.State → Outcome Parser (Unit {0})
  advance_to p (ok s) = done tt (record p { scanner = s })
  advance_to p (fault e) = failed e

  -- parser_t::next_token
  unfoldable pub next_token : M (Unit {0})
  next_token p = advance_to p (src.next p.scanner)

  -- parser_t::error
  unfoldable pub error : Message → M (Unit {0})
  error m p = done tt (record p {
    errormsg =
        some (record { message = m; line = src.line p.scanner; column = src.column p.scanner });
  })
