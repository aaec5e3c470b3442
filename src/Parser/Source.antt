-- ===== src/Parser/Source.antt =====
-- What src/app/parser.cxx uses of its scanner, and of the number conversions of eokas-base.
use eokas_lang.Prelude.{ℕ, ◌≤◌, ◌<◌, ◌≡◌, Bool, false, Bytes, Run, Ensures}
use eokas_lang.Token.{TokenType, Token, same_type}
use eokas_lang.Ast.Int.{ℤ}

-- A scanner: its current token, its position in lines and columns, and `next_token`. `left` bounds
-- the tokens that are left, in the states that `IsReady` describes.
pub record TokenSource : Type 1 where
  pub State : Type 0
  pub token : State → Token
  pub line : State → ℕ
  pub column : State → ℕ
  pub next : State → Run State
  pub IsReady : State → Type 0
  pub left : State → ℕ
  pub next_lem :
      (s : State)
      → IsReady s
      → Ensures
          (λ t.
            IsReady t
            × (left t ≤ left s)
            × (same_type (token s).type TokenType.eos ≡ false → left t < left s))
          (next s)

-- String::binstrToValue<i32_t>, String::hexstrToValue<i32_t>, String::stringToValue<i32_t>,
-- String::stringToValue<f32_t>, widened to the bits of an `f64_t`, and String::stringToValue<bool>.
pub record Conversions : Type 0 where
  pub binstr_to_value : Bytes → ℤ
  pub hexstr_to_value : Bytes → ℤ
  pub string_to_int : Bytes → ℤ
  pub string_to_float : Bytes → ℕ
  pub string_to_bool : Bytes → Bool
