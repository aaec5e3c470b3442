-- ===== src/Omis/Steady/Objects.antt =====
-- The methods of src/omis/model.cpp for types and values leave the scopes as they are, and the tables with what
-- they had.
use eokas_lang.Prelude.{
  ℕ, ◌≡◌, refl, Bool, none, List, [], ◌∷◌, Option-cases, Run-cases, inl, inr, ◌+◌, arith, Bytes,
}
use eokas_lang.Omis.Bridge.{Bridge, Handle, BasicType}
use eokas_lang.Omis.Interned.{Table-add, Table-weaken, Grows-of, find_handle-add}
use eokas_lang.Omis.State.{
  OmisType, OmisValue, OmisModule, ◌>>=◌, ◌>>◌, pure, get_state, modify, ask,
}
use eokas_lang.Omis.Objects.{
  find_handle, type_at, value_as, value_at, basic, type_pointer, type_func, get_type_size,
  can_losslessly_bitcast, value_integer, value_float, value_bool, value_func, get_func_ret_type,
  get_func_arg_type, get_func_arg_value,
}
use eokas_lang.Omis.Steady.Rules.{
  Run, Run-refl, Steady, kept, faulted, Steady-pure, Steady-ask, Steady-get, Steady-modify,
  Steady-if, Steady-option, Steady-bind,
}

module _ ⦃B : Bridge⦄ where
  -- The state with a new type, and with a new value.
  abbrev pub with_type : OmisModule → B.State → OmisType → OmisModule
  with_type s b t = record s {
    bridge = b;
    types = (t.handle, t) ∷ s.types;
    next_id = s.next_id + 1;
  }

  abbrev pub with_object : OmisModule → OmisValue → OmisModule
  with_object s v = record s { values = (v.handle, v) ∷ s.values; next_id = s.next_id + 1 }

  with_type-Run :
      (s : OmisModule) (b : B.State) (t : OmisType)
      → t.id ≡ s.next_id
      → find_handle t.handle s.types ≡ none
      → Run s (with_type s b t)
  with_type-Run s b t i e = record {
    restores = record {
      parents = refl;
      func = refl;
      types = refl;
      break_point = refl;
      continue_point = refl;
      new = [];
      values = refl;
    };
    grows = record {
      interned = λ w. (
        Table-add _ _ s.next_id s.types t.handle t refl i e w.0,
        Table-weaken _ _ s.next_id (s.next_id + 1) s.values (omega arith) w.1,
      );
      type_kept = λ k a f. find_handle-add s.types k t.handle a t e f;
      value_kept = λ k a f. f;
    };
  }

  with_object-Run :
      (s : OmisModule) (v : OmisValue)
      → v.id ≡ s.next_id
      → find_handle v.handle s.values ≡ none
      → Run s (with_object s v)
  with_object-Run s v i e = record {
    restores = record {
      parents = refl;
      func = refl;
      types = refl;
      break_point = refl;
      continue_point = refl;
      new = [];
      values = refl;
    };
    grows = record {
      interned = λ w. (
        Table-weaken _ _ s.next_id (s.next_id + 1) s.types (omega arith) w.0,
        Table-add _ _ s.next_id s.values v.handle v refl i e w.1,
      );
      type_kept = λ k a f. f;
      value_kept = λ k a f. find_handle-add s.values k v.handle a v e f;
    };
  }

  -- Two cases: the handle has an object, or a new one is made.
  pub type_at-Steady : (h : Handle) → Steady (type_at h)
  unfolding type_at ask
  type_at-Steady h = record {
    at = λ s. elim (Option-cases (find_handle h s.types)) [
      | inl e ↦ elim (Run-cases (B.get_type_name h s.bridge)) [
        | inl ((name, b), f) ↦
            rw (e, ask, f, ◌>>=◌, ◌>>◌)
              (kept (with_type-Run s b (record { id = s.next_id; handle = h; name = name }) refl e))
        | inr (x, f) ↦ rw (e, ask, f, ◌>>=◌) faulted
      ]
      | inr (t, e) ↦ rw (e, ◌>>=◌) (kept (Run-refl s))
    ];
  }

  pub value_as-Steady : (type : OmisType) (h : Handle) → Steady (value_as type h)
  unfolding value_as
  value_as-Steady type h = record {
    at = λ s. elim (Option-cases (find_handle h s.values)) [
      | inl e ↦
          rw (e, ◌>>=◌, ◌>>◌)
            (kept (with_object-Run s (record { id = s.next_id; type = type; handle = h }) refl e))
      | inr (t, e) ↦ rw (e, ◌>>=◌) (kept (Run-refl s))
    ];
  }

  pub value_at-Steady : (h : Handle) → Steady (value_at h)
  unfolding value_at
  value_at-Steady h = search (Steady-bind, Steady-ask, type_at-Steady, value_as-Steady)

  pub basic-Steady : (b : BasicType) → Steady (basic b)
  unfolding basic
  basic-Steady b = Steady-bind get_state _ Steady-get λ s.
      Steady-option (s.statics b) pure _ Steady-pure (
        Steady-bind (ask (B.type_basic b)) _ (Steady-ask _) λ h.
          Steady-bind (type_at h) _ (type_at-Steady h) λ t.
            Steady-bind (modify _) _
              (Steady-modify _ λ s. record {
                restores = record {
                  parents = refl;
                  func = refl;
                  types = refl;
                  break_point = refl;
                  continue_point = refl;
                  new = [];
                  values = refl;
                };
                grows = Grows-of refl refl refl;
              })
              λ _. Steady-pure t)

  ruleset objects = (
    Steady-bind, Steady-pure, Steady-ask, Steady-if, Steady-get, type_at-Steady, value_as-Steady,
    value_at-Steady, basic-Steady,
  )

  pub type_pointer-Steady : (type : OmisType) → Steady (type_pointer type)
  unfolding type_pointer
  type_pointer-Steady type = search objects

  pub type_func-Steady :
      (ret : OmisType) (args : List OmisType) (varg : Bool) → Steady (type_func ret args varg)
  unfolding type_func
  type_func-Steady ret args varg = search objects

  pub get_type_size-Steady : (type : OmisType) → Steady (get_type_size type)
  unfolding get_type_size
  get_type_size-Steady type = search objects

  pub can_losslessly_bitcast-Steady : (a b : OmisType) → Steady (can_losslessly_bitcast a b)
  unfolding can_losslessly_bitcast
  can_losslessly_bitcast-Steady a b = search objects

  pub value_integer-Steady : (val bits : ℕ) → Steady (value_integer val bits)
  unfolding value_integer
  value_integer-Steady val bits = search objects depth 8

  pub value_float-Steady : (val : ℕ) → Steady (value_float val)
  unfolding value_float
  value_float-Steady val = search objects

  pub value_bool-Steady : (val : Bool) → Steady (value_bool val)
  unfolding value_bool
  value_bool-Steady val = search objects

  pub value_func-Steady :
      (name : Bytes) (ret : OmisType) (args : List OmisType) (varg : Bool)
      → Steady (value_func name ret args varg)
  unfolding value_func
  value_func-Steady name ret args varg = search (objects, type_func-Steady)

  pub get_func_ret_type-Steady : (func : OmisValue) → Steady (get_func_ret_type func)
  unfolding get_func_ret_type
  get_func_ret_type-Steady func = search objects

  pub get_func_arg_type-Steady : (func : OmisValue) (i : ℕ) → Steady (get_func_arg_type func i)
  unfolding get_func_arg_type
  get_func_arg_type-Steady func i = search objects

  pub get_func_arg_value-Steady : (func : OmisValue) (i : ℕ) → Steady (get_func_arg_value func i)
  unfolding get_func_arg_value
  get_func_arg_value-Steady func i = search objects
