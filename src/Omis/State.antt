-- ===== src/Omis/State.antt =====
-- The state of `omis_module_t`, src/omis/model.h, and its methods as actions on the state. Objects
-- of types and values never change once they are made, so a pointer to one is its contents with an
-- `id` for its address. The scopes are the current one and those that enclose it, innermost first:
-- a scope that was left is only kept to be deleted.
use eokas_lang.Prelude.{ℕ, Option, none, List, Bytes}
use eokas_lang.Parser.Monad.{Outcome, done, null, failed}
use eokas_lang.Prelude.{null_deref, Run, ok, fault}
use eokas_lang.Omis.Bridge.{Bridge, Handle, Op, BasicType}

-- omis_type_t
pub record OmisType : Type 0 where
  pub id : ℕ
  pub handle : Handle
  pub name : Bytes

-- omis_value_t
pub record OmisValue : Type 0 where
  pub id : ℕ
  pub type : OmisType
  pub handle : Handle

-- omis_scope_t, without its links
pub record Scope : Type 0 where
  pub func : Option OmisValue
  pub types : List (Bytes × OmisType)
  pub values : List (Bytes × OmisValue)

-- omis_module_t, with the `static` variables of its type methods. `next_id` is no address in use.
pub record OmisModule ⦃B : Bridge⦄ : Type 0 where
  pub bridge : B.State
  pub name : Bytes
  pub handle : Handle
  pub scope : Scope
  pub parents : List Scope
  pub usings : List ℕ
  pub types : List (Handle × OmisType)
  pub values : List (Handle × OmisValue)
  pub break_point : Option OmisValue
  pub continue_point : Option OmisValue
  pub statics : BasicType → Option OmisType
  pub next_id : ℕ

module _ ⦃B : Bridge⦄ where
  -- A method returns an object or `true`, a null pointer or `false`, or it faults.
  abbrev pub M : Type 0 → Type 0
  M A = OmisModule → Outcome OmisModule A

  infixl 5 ◌>>=◌ ◌>>◌
  abbrev pub ◌>>=◌ : {A C : Type 0} → M A → (A → M C) → M C
  ◌>>=◌ m f s = elim (m s) [ done a t ↦ f a t | null t ↦ null t | failed e ↦ failed e ]

  abbrev pub ◌>>◌ : {C : Type 0} → M (Unit {0}) → M C → M C
  m >> k = m >>= λ _. k

  abbrev pub pure : {A : Type 0} → A → M A
  pure a s = done a s

  -- `return nullptr`, `return false`
  abbrev pub return_null : {A : Type 0} → M A
  return_null s = null s

  abbrev pub crash : {A : Type 0} → M A
  crash s = failed null_deref

  abbrev pub get_state : M OmisModule
  get_state s = done s s

  abbrev pub modify : (OmisModule → OmisModule) → M (Unit {0})
  modify f s = done tt (f s)

  -- A call whose null result the caller tests later.
  abbrev pub nullable : {A : Type 0} → M A → M (Option A)
  nullable m s = elim (m s) [
    | done a t ↦ done (Option.some a) t
    | null t ↦ done none t
    | failed e ↦ failed e
  ]

  -- A pointer that is used with no test.
  abbrev pub deref : {A : Type 0} → Option A → M A
  deref o = elim o [ Option.some a ↦ pure a | none ↦ crash ]

  abbrev pub answer : {A : Type 0} → OmisModule → Run (A × B.State) → Outcome OmisModule A
  answer s (ok (a, b)) = done a (record s { bridge = b })
  answer s (fault e) = failed e

  -- A call of the bridge.
  unfoldable pub ask : {A : Type 0} → Op B.State A → M A
  ask op s = answer s (op s.bridge)
