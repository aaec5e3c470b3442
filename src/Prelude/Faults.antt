-- ===== src/Prelude/Faults.antt =====
-- Runs that may fault. A fault is undefined behaviour of the program, or the model's own limit.
use mathlib.Core.Path.{◌≡◌, refl}
use mathlib.Core.Logic.{◌⊎◌, inl, inr}
use mathlib.Core.Bool.{Bool, true, false}
use eokas_lang.Prelude.Tests.{if◌then◌else◌}

pub data Fault : Type 0 where
  -- a byte was read behind the terminator of the source
  overread : Fault
  -- a null pointer was dereferenced
  null_deref : Fault
  -- a function that returns a value ended without a return statement
  no_return : Fault
  -- an object was used as one of a class that it is not of
  bad_cast : Fault
  -- an element behind the end of an array was read
  out_of_range : Fault
  -- an empty std::function was called
  empty_call : Fault
  -- the model's loop bound was too small: no behaviour of the program
  out_of_fuel : Fault

pub data Run {ℓ} (A : Type ℓ) : Type ℓ where
  fault : (why : Fault) → Run A
  ok : (result : A) → Run A

pub Run-cases {ℓ} :
    {A : Type ℓ} (r : Run A) → ((a : A) × (r ≡ ok a)) ⊎ ((why : Fault) × (r ≡ fault why))
Run-cases (ok a) = inl (a, refl)
Run-cases (fault why) = inr (why, refl)

-- The first fault ends a run.
infixl 5 ◌>>=◌
abbrev pub ◌>>=◌ {ℓ κ} : {A : Type ℓ} {B : Type κ} (run : Run A) → (A → Run B) → Run B
fault why >>= next = fault why
ok result >>= next = next result

-- The run has no fault, and `P` holds of its result.
pub data Ensures {ℓ κ} {A : Type ℓ} (P : A → Type κ) : Run A → Type (ℓ ⊔ κ) where
  holds : {a : A} → P a → Ensures P (ok a)

module _ {ℓ κ} {A : Type ℓ} {P : A → Type κ} where
  pub Ensures-eq_ok : {r : Run A} → Ensures P r → (a : A) × (r ≡ ok a) × P a
  Ensures-eq_ok (holds {a} h) = (a, refl, h)

  pub Ensures-if :
      (b : Bool) {x y : Run A}
      → (b ≡ true → Ensures P x)
      → (b ≡ false → Ensures P y)
      → Ensures P (if b then x else y)
  Ensures-if true hx hy = hx refl
  Ensures-if false hx hy = hy refl

  pub Ensures-bind {ℓ' κ'} :
      {B : Type ℓ'} {Q : B → Type κ'} {r : Run A} {f : A → Run B}
      → Ensures P r
      → ((a : A) → P a → Ensures Q (f a))
      → Ensures Q (r >>= f)
  Ensures-bind (holds {a} h) k = k a h

  pub Ensures-map {κ'} :
      {Q : A → Type κ'} {r : Run A} → Ensures P r → ((a : A) → P a → Q a) → Ensures Q r
  Ensures-map (holds {a} h) k = holds (k a h)
