-- ===== src/Omis/Answers.antt =====
-- Methods of src/omis/model.cpp that always end with a result, over a bridge that answers.
use eokas_lang.Prelude.{
  ◌≡◌, ◌≢◌, refl, Run, ok, Bool, Option, none, some, List, [], ◌∷◌, Bytes, Option-cases, inl, inr,
}
use eokas_lang.Parser.Monad.{done, null, failed}
use eokas_lang.Omis.Bridge.{Bridge, Handle, Op, BasicType}
use eokas_lang.Omis.State.{
  OmisType, OmisValue, OmisModule, M, ◌>>=◌, ◌>>◌, pure, nullable, get_state, modify, answer, ask,
}
use eokas_lang.Omis.Scopes.{add_value_symbol}
use eokas_lang.Omis.Objects.{
  find_handle, handles, type_at, value_as, value_at, basic, type_func, value_func,
}
use eokas_lang.Omis.Steady.Objects.{with_type, with_object}
use eokas_lang.Omis.Steady.Scoped.{with_value, add_value_symbol-cases}
use eokas_lang.Omis.Cstd.{basics, declare, cstd_main}

-- The call has no fault, and returns an object.
pub data Answered {S : Type 0} : Run (Handle × S) → Type 0 where
  answered : {h : Handle} {b : S} → h ≢ 0 → Answered (ok (h, b))

-- The methods of the bridge that make and look at the types and values of functions answer: the last two when
-- they are asked for an object.
pub record IsAnswering (B : Bridge) : Type 0 where
  pub type_basic : (b : BasicType) (s : B.State) → Answered (B.type_basic b s)
  pub type_func :
      (ret : Handle) (args : List Handle) (varg : Bool) (s : B.State)
      → Answered (B.type_func ret args varg s)
  pub value_func :
      (m : Handle) (name : Bytes) (type : Handle) (s : B.State)
      → Answered (B.value_func m name type s)
  pub get_value_type : (h : Handle) → h ≢ 0 → (s : B.State) → Answered (B.get_value_type h s)
  pub get_type_name :
      (h : Handle)
      → h ≢ 0
      → (s : B.State) → (name : Bytes) × ((t : B.State) × (B.get_type_name h s ≡ ok (name, t)))

module _ ⦃B : Bridge⦄ where
  pub record Answers {A : Type 0} (m : M A) : Type 0 where
    pub at : (s : OmisModule) → (a : A) × ((t : OmisModule) × (m s ≡ done a t))

  module _ {A : Type 0} where
    Answers-pure : (a : A) → Answers (pure a)
    Answers-pure a = record { at = λ s. (a, (s, refl)) }

    Answers-ask :
        (op : Op B.State Handle) (f : Handle → M A)
        → ((b : B.State) → Answered (op b))
        → ((h : Handle) → h ≢ 0 → Answers (f h))
        → Answers (ask op >>= f)
    unfolding ask
    Answers-ask op f hop hf = record { at = λ s. by_answer s (hop s.bridge) }
      where
        by_answer :
            (s : OmisModule) {r : Run (Handle × B.State)}
            → Answered r
            → (a : A) × ((t : OmisModule) × (elim (answer s r) [
              | done h u ↦ f h u
              | null u ↦ null u
              | failed e ↦ failed e
            ]
                  ≡ done a t))
        by_answer s (answered {h} {b} n) = (hf h n).at (record s { bridge = b })

    Answers-bind :
        {C : Type 0} (m : M A) (f : A → M C)
        → Answers m
        → ((a : A) → Answers (f a))
        → Answers (m >>= f)
    Answers-bind m f hm hf = record {
      at = λ s.
          let (a, (t, e)) = hm.at s in let (c, (u, g)) = (hf a).at t in (c, (u, rw (e, ◌>>=◌) g));
    }

  Answers-get : Answers get_state
  Answers-get = record { at = λ s. (s, (s, refl)) }

  Answers-modify : (f : OmisModule → OmisModule) → Answers (modify f)
  Answers-modify f = record { at = λ s. (tt, (f s, refl)) }

  type_at-Answers : IsAnswering B → (h : Handle) → h ≢ 0 → Answers (type_at h)
  unfolding type_at ask
  type_at-Answers answering h n = record {
    at = λ s. elim (Option-cases (find_handle h s.types)) [
      | inl e ↦
          let (name, (b, f)) = answering.get_type_name h n s.bridge in
          let t : OmisType = record { id = s.next_id; handle = h; name = name } in
          (t, (with_type s b t, rw (e, ask, f, ◌>>=◌, ◌>>◌) refl))
      | inr (t, e) ↦ (t, (s, rw (e, ◌>>=◌) refl))
    ];
  }

  value_as-Answers : (type : OmisType) (h : Handle) → Answers (value_as type h)
  unfolding value_as
  value_as-Answers type h = record {
    at = λ s. elim (Option-cases (find_handle h s.values)) [
      | inl e ↦
          let v : OmisValue = record { id = s.next_id; type = type; handle = h } in
          (v, (with_object s v, rw (e, ◌>>=◌, ◌>>◌) refl))
      | inr (t, e) ↦ (t, (s, rw (e, ◌>>=◌) refl))
    ];
  }

  ruleset answers =
      (Answers-bind, Answers-pure, Answers-get, Answers-modify, type_at-Answers, value_as-Answers)

  value_at-Answers : IsAnswering B → (h : Handle) → h ≢ 0 → Answers (value_at h)
  unfolding value_at
  value_at-Answers answering h n =
      Answers-ask (B.get_value_type h) _ (answering.get_value_type h n)
        λ th tn. Answers-bind _ _ (type_at-Answers answering th tn) λ type. value_as-Answers type h

  Answers-option :
      {A C : Type 0} (o : Option C) (f : C → M A) (n : M A)
      → ((c : C) → Answers (f c))
      → Answers n
      → Answers (elim o [ some c ↦ f c | none ↦ n ])
  Answers-option (some c) f n hf hn = hf c
  Answers-option none f n hf hn = hn

  pub basic-Answers : IsAnswering B → (b : BasicType) → Answers (basic b)
  unfolding basic
  basic-Answers answering b = Answers-bind get_state _ Answers-get λ s.
      Answers-option (s.statics b) pure _ Answers-pure (
        Answers-ask (B.type_basic b) _ (answering.type_basic b) λ h n.
          Answers-bind _ _ (type_at-Answers answering h n)
            λ t. Answers-bind _ _ (Answers-modify _) λ _. Answers-pure t)

  basics-Answers : IsAnswering B → (bs : List BasicType) → Answers (basics bs)
  unfolding basics
  basics-Answers answering [] = Answers-pure []
  basics-Answers answering (b ∷ rest) =
      Answers-bind _ _ (basic-Answers answering b)
        λ t. Answers-bind _ _ (basics-Answers answering rest) λ ts. Answers-pure (t ∷ ts)

  pub value_func-Answers :
      IsAnswering B
      → (name : Bytes) (ret : OmisType) (args : List OmisType) (varg : Bool)
      → Answers (value_func name ret args varg)
  unfolding value_func type_func
  value_func-Answers answering name ret args varg =
      Answers-bind _ _
        (Answers-ask (B.type_func ret.handle (handles args) varg) _
          (answering.type_func ret.handle (handles args) varg) λ h n. type_at-Answers answering h n)
        λ type. Answers-bind get_state _ Answers-get λ s.
          Answers-ask (B.value_func s.handle name type.handle) _
            (answering.value_func s.handle name type.handle) λ h n. value_at-Answers answering h n

  nullable-Answers : (name : Bytes) (v : OmisValue) → Answers (nullable (add_value_symbol name v))
  nullable-Answers name v = record {
    at = λ s. elim (add_value_symbol-cases name v s) [
      | inl e ↦ (none, (s, rw (e, nullable) refl))
      | inr e ↦ (some tt, (with_value name v s, rw (e, nullable) refl))
    ];
  }

  declare-Answers :
      IsAnswering B
      → (name : Bytes) (ret : BasicType) (args : List BasicType) (varg : Bool)
      → Answers (declare name ret args varg)
  unfolding declare
  declare-Answers answering name ret args varg =
      Answers-bind _ _ (basic-Answers answering ret) λ type.
        Answers-bind _ _ (basics-Answers answering args) λ types.
          Answers-bind _ _ (value_func-Answers answering name type types varg)
            λ func. Answers-bind _ _ (nullable-Answers name func) λ _. Answers-pure tt

  pub cstd_main-Answers : IsAnswering B → Answers cstd_main
  unfolding cstd_main
  cstd_main-Answers answering = search (Answers-bind, declare-Answers) depth 12
