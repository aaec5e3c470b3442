-- ===== src/Omis/Quiet.antt =====
-- Methods of src/omis/model.cpp that leave the state of a backend as it is, over one that only answers them.
use eokas_lang.Prelude.{◌≡◌, ◌≢◌, refl, ◌∙◌, ok, Bytes, Option-cases, inl, inr}
use eokas_lang.Parser.Monad.{done}
use eokas_lang.Omis.Bridge.{Bridge, Handle, Op, BasicType}
use eokas_lang.Omis.State.{OmisType, OmisValue, OmisModule, M, ◌>>=◌, ◌>>◌, pure, modify, ask}
use eokas_lang.Omis.Objects.{find_handle, type_at, value_as, value_at, set_static, basic}
use eokas_lang.Omis.Interned.{Interned, find_handle-bound}
use eokas_lang.Omis.Steady.Rules.{Kept-done, Steady, Steady-ask}
use eokas_lang.Omis.Steady.Objects.{with_type, with_object, type_at-Steady}

-- The methods of the bridge that only tell of types, when they are asked for an object.
pub record IsQuiet (B : Bridge) : Type 0 where
  pub type_basic :
      (b : BasicType) (s : B.State) → (h : Handle) × ((h ≢ 0) × (B.type_basic b s ≡ ok (h, s)))
  pub get_type_name :
      (h : Handle) → h ≢ 0 → (s : B.State) → (name : Bytes) × (B.get_type_name h s ≡ ok (name, s))
  pub get_value_type :
      (h : Handle)
      → h ≢ 0
      → (s : B.State) → (t : Handle) × ((t ≢ 0) × (B.get_value_type h s ≡ ok (t, s)))

module _ ⦃B : Bridge⦄ where
  -- The run ends with a result that has `P`, and the backend is as it was.
  pub data Quiet {A : Type 0} (P : A → Type 0) (m : M A) (s : OmisModule) : Type 0 where
    quiet : (a : A) (t : OmisModule) → m s ≡ done a t → t.bridge ≡ s.bridge → P a → Quiet P m s

  Quiet-at :
      {A : Type 0} {P : A → Type 0} {m n : M A} {s : OmisModule}
      → m s ≡ n s
      → Quiet P n s
      → Quiet P m s
  Quiet-at e (quiet a t r b p) = quiet a t (e ∙ r) b p

  pub Quiet-bind :
      {A C : Type 0} {P : A → Type 0} {Q : C → Type 0} (m : M A) (f : A → M C) (s : OmisModule)
      → Steady m
      → Interned s
      → Quiet P m s
      → ((a : A) (t : OmisModule) → Interned t → P a → Quiet Q (f a) t)
      → Quiet Q (m >>= f) s
  Quiet-bind m f s h i (quiet a t e b p) k =
      elim (k a t ((Kept-done (h.at s) e).grows.interned i) p) [
        | quiet c u g d q ↦ quiet c u (rw (◌>>=◌, e) g) (d ∙ b) q
      ]

  pub Quiet-ask :
      {A : Type 0} {P : A → Type 0} (op : Op B.State A) (a : A) (s : OmisModule)
      → op s.bridge ≡ ok (a, s.bridge)
      → P a
      → Quiet P (ask op) s
  unfolding ask
  Quiet-ask op a s e p = quiet a s (rw (ask, e) refl) refl p

  type_at-Quiet :
      IsQuiet B → (h : Handle) → h ≢ 0 → (s : OmisModule) → Quiet (λ t. Unit) (type_at h) s
  unfolding type_at ask
  type_at-Quiet q h n s = elim (Option-cases (find_handle h s.types)) [
    | inl e ↦
        let (name, f) = q.get_type_name h n s.bridge in
        let t : OmisType = record { id = s.next_id; handle = h; name = name } in
        quiet t (with_type s s.bridge t) (rw (e, ask, f, ◌>>=◌, ◌>>◌) refl) refl tt
    | inr (t, e) ↦ quiet t s (rw (e, ◌>>=◌) refl) refl tt
  ]

  pub value_as-Quiet :
      (type : OmisType) (h : Handle) (s : OmisModule)
      → Interned s
      → Quiet (λ (v : OmisValue). v.handle ≡ h) (value_as type h) s
  unfolding value_as
  value_as-Quiet type h s i = elim (Option-cases (find_handle h s.values)) [
    | inl e ↦
        let v : OmisValue = record { id = s.next_id; type = type; handle = h } in
        quiet v (with_object s v) (rw (e, ◌>>=◌, ◌>>◌) refl) refl refl
    | inr (v, e) ↦
        quiet v s (rw (e, ◌>>=◌) refl) refl (find_handle-bound _ _ s.next_id s.values h v i.1 e).1
  ]

  pub value_at-Quiet :
      IsQuiet B
      → (h : Handle) → h ≢ 0
      → (s : OmisModule) → Interned s
      → Quiet (λ (v : OmisValue). v.handle ≡ h) (value_at h) s
  unfolding value_at
  value_at-Quiet q h n s i =
      let (th, (tn, e)) = q.get_value_type h n s.bridge in
      Quiet-bind (ask (B.get_value_type h)) _ s (Steady-ask _) i
        (Quiet-ask (B.get_value_type h) th s e tn)
        λ c t j cn.
          Quiet-bind (type_at c) _ t (type_at-Steady c) j (type_at-Quiet q c cn t)
            λ type u k p. value_as-Quiet type h u k

  -- The first call of a `type_...` method.
  abbrev first_basic : BasicType → M OmisType
  first_basic b = do h ← ask (B.type_basic b); t ← type_at h; modify (set_static b t); pure t

  pub basic-Quiet :
      IsQuiet B → (b : BasicType) (s : OmisModule) → Interned s → Quiet (λ t. Unit) (basic b) s
  unfolding basic
  basic-Quiet q b s i = elim (Option-cases (s.statics b)) [
    | inl e ↦
        let (h, (n, f)) = q.type_basic b s.bridge in
        Quiet-at {n = first_basic b} (rw (basic, e, ◌>>=◌) refl) (
          Quiet-bind (ask (B.type_basic b)) _ s (Steady-ask _) i
            (Quiet-ask (B.type_basic b) h s f n)
            λ c t j cn.
              Quiet-bind (type_at c) _ t (type_at-Steady c) j (type_at-Quiet q c cn t)
                λ type u k p. quiet type _ refl refl tt)
    | inr (t, e) ↦ quiet t s (rw (basic, e, ◌>>=◌) refl) refl tt
  ]
