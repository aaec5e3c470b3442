-- ===== src/Llvm/Monad.antt =====
-- The methods of llvm_bridge_t of src/omis/llvm/llvm.cxx as actions on the state of LLVM.
use eokas_lang.Prelude.{◌==◌, Run, ok, fault, null_deref, bad_cast, if◌then◌else◌}
use eokas_lang.Omis.Bridge.{Handle, Op}
use eokas_lang.Llvm.Api.{Ty, Llvm}

module _ {S : Type 0} where
  infixl 5 ◌>>=◌ ◌>>◌
  abbrev pub ◌>>=◌ : {A C : Type 0} → Op S A → (A → Op S C) → Op S C
  ◌>>=◌ m f s = elim (m s) [ ok r ↦ f r.0 r.1 | fault e ↦ fault e ]

  abbrev pub ◌>>◌ : {C : Type 0} → Op S (Unit {0}) → Op S C → Op S C
  m >> k = m >>= λ _. k

  abbrev pub pure : {A : Type 0} → A → Op S A
  pure a s = ok (a, s)

  -- A method called on a null pointer.
  abbrev pub crash : {A : Type 0} → Op S A
  crash s = fault null_deref

  -- A cast to a class that the object is not of.
  abbrev pub miscast : {A : Type 0} → Op S A
  miscast s = fault bad_cast

  -- What LLVM reads of the state, and what it returns with a new state.
  abbrev pub gets : {A : Type 0} → (S → A) → Op S A
  gets f s = ok (f s, s)

  abbrev pub calls : {A : Type 0} → (S → A × S) → Op S A
  calls f s = ok (f s)

  abbrev pub does : (S → S) → Op S (Unit {0})
  does f s = ok (tt, f s)

  abbrev pub runs : (S → Run S) → Op S (Unit {0})
  runs f s = elim (f s) [ ok t ↦ ok (tt, t) | fault e ↦ fault e ]

  -- `handle->...`
  abbrev pub deref : Handle → Op S (Unit {0})
  deref h = if h == 0 then crash else pure tt

module _ (L : Llvm) where
  -- `_Ty(type)->...`: the type that the method is called on.
  unfoldable pub type_of : Handle → Op L.State Ty
  type_of h = do deref h; pure (L.type_at h)

  -- `_Val(value)->getType()`
  unfoldable pub value_type : Handle → Op L.State Ty
  value_type v = do deref v; gets (L.get_type v)
