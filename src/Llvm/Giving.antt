-- ===== src/Llvm/Giving.antt =====
-- How the actions of src/omis/llvm/llvm.cxx that give values are put together.
use eokas_lang.Prelude.{ℕ, zero, suc, ◌≡◌, ◌≢◌, refl, ◌∙◌, false, ◌==◌, Run, ok, fault, arith}
use eokas_lang.Omis.Bridge.{Handle, Op}
use eokas_lang.Llvm.Api.{Ty, Llvm}
use eokas_lang.Llvm.Monad.{◌>>=◌, deref, value_type}
use eokas_lang.Llvm.Laws.{Gives, gives, IsLawful}

pub eq_zero-false : (h : ℕ) → h ≢ 0 → (h == 0) ≡ false
eq_zero-false zero n = absurd (n refl)
eq_zero-false (suc h) n = ground arith

pub deref-object : {S : Type 0} (h : Handle) (s : S) → h ≢ 0 → deref h s ≡ ok (tt, s)
deref-object h s n = rw (deref, eq_zero-false h n) refl

module _ (L : Llvm) where
  pub value_type-object :
      (v : Handle) (s : L.State) → v ≢ 0 → value_type L v s ≡ ok (L.get_type v s, s)
  unfolding value_type
  value_type-object v s n = rw (eq_zero-false v n) refl

module _ (L : Llvm) (law : IsLawful L) where
  -- The values before are as they were.
  abbrev pub Keeps : L.State → L.State → Type 0
  Keeps s u =
      (v : Handle)
      → law.Live v s
      → law.Live v u × ((L.get_type v u ≡ L.get_type v s) × (L.is_function v u ≡ L.is_function v s))

  pub Keeps-trans : {s t u : L.State} → Keeps s t → Keeps t u → Keeps s u
  Keeps-trans k n v l =
      let (lt, (et, ft)) = k v l in let (lu, (eu, fu)) = n v lt in (lu, (eu ∙ et, fu ∙ ft))

  pub Gives-from :
      {t : Ty} {s u : L.State} {r : Run (Handle × L.State)}
      → Keeps s u
      → Gives L law.Live t u r
      → Gives L law.Live t s r
  Gives-from k (gives live e f kept) = gives live e f (Keeps-trans k kept)

  pub Gives-bind :
      {t t' : Ty} (m : Op L.State Handle) (f : Handle → Op L.State Handle) (s : L.State)
      → Gives L law.Live t s (m s)
      → ((h : Handle) (u : L.State)
          → law.Live h u
          → L.get_type h u ≡ t
          → L.is_function h u ≡ false
          → Keeps s u
          → Gives L law.Live t' u (f h u))
      → Gives L law.Live t' s ((m >>= f) s)
  Gives-bind {t} {t'} m f s g k = by_result (m s) g
    where
      by_result :
          (r : Run (Handle × L.State))
          → Gives L law.Live t s r
          → Gives L law.Live t' s (elim r [ ok r ↦ f r.0 r.1 | fault e ↦ fault e ])
      by_result (fault why) x = elim x [ ]
      by_result (ok (h, u)) (gives live e n kept) = Gives-from kept (k h u live e n kept)
