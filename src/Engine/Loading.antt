-- ===== src/Engine/Loading.antt =====
-- What coder_t::encode of src/app/coder.cpp leaves of the engine's modules.
use mathlib.Core.Path.{subst}
use mathlib.Core.Option.{none-ne-some}
use eokas_lang.Prelude.{
  Fault, ◌≡◌, refl, sym, ap, ◌∙◌, false, Option, none, some, List, [], ◌∷◌, Bytes, bytes_eq,
  bytes_eq_refl, Bool-cases, Option-cases, Run-cases, ok, fault, inl, inr,
}
use eokas_lang.Ast.{Module}
use eokas_lang.Ast.Map.{has_key}
use eokas_lang.Parser.Monad.{Outcome, done, null, failed}
use eokas_lang.Omis.Bridge.{Bridge, Handle}
use eokas_lang.Omis.State.{OmisValue, OmisModule}
use eokas_lang.Omis.Scopes.{get, add}
use eokas_lang.Omis.Interned.{Interned}
use eokas_lang.Coder.Encode.{encode_module}
use eokas_lang.Coder.Encodable.{AllEncodable}
use eokas_lang.Coder.Limits.{encode_module-AllEncodable}
use eokas_lang.Coder.Tables.{encode_module-Interned}
use eokas_lang.Engine.{
  Engine, add_module, get_module, load_module, fresh_module, after, dropped, make_code, encode,
}

has_key-get :
    {T : Type 0} (name : Bytes) (table : List (Bytes × T))
    → get name table ≡ none
    → has_key name table ≡ false
unfolding get has_key
has_key-get name [] e = refl
has_key-get name ((k, v) ∷ rest) e = elim (Bool-cases (bytes_eq k name)) [
  | inl q ↦ absurd (none-ne-some v (sym e ∙ rw q refl))
  | inr q ↦ rw q (has_key-get name rest (sym (rw q refl) ∙ e))
]

module _ ⦃B : Bridge⦄ where
  -- A run on an engine that leaves its modules as they are, and returns a module with `P`.
  data LeavesModules (P : OmisModule → Type 0) (e : Engine)
      : Outcome Engine OmisModule → Type 0 where
    left_done :
        {m : OmisModule} {f : Engine} → P m → f.modules ≡ e.modules → LeavesModules P e (done m f)
    left_null : {f : Engine} → f.modules ≡ e.modules → LeavesModules P e (null f)
    left_failed : {x : Fault} → LeavesModules P e (failed x)

  -- The ways that a load of `name` ends: the name was free and has the new module, with `P`, or the modules are
  -- as they were, or it faults.
  pub data Loaded (name : Bytes) (P : OmisModule → Type 0) (e : Engine)
      : Outcome Engine OmisModule → Type 0 where
    loaded :
        {m : OmisModule} {f : Engine}
        → P m
        → get_module name e ≡ none
        → f.modules ≡ (name, m) ∷ e.modules
        → Loaded name P e (done m f)
    refused : {f : Engine} → f.modules ≡ e.modules → Loaded name P e (null f)
    stopped : {x : Fault} → Loaded name P e (failed x)

  pub Loaded-done :
      {name : Bytes} {P : OmisModule → Type 0} {e f : Engine} {m : OmisModule}
      {r : Outcome Engine OmisModule}
      → Loaded name P e r
      → r ≡ done m f
      → P m × ((get_module name e ≡ none) × (f.modules ≡ (name, m) ∷ e.modules))
  Loaded-done {name} {P} {e} {f} {m} (loaded {m = n} {f = g} p free k) q =
      let one : n ≡ m = cc in
      let same : g ≡ f = cc in
      (
        subst P one p,
        (free, ap (λ (x : Engine). x.modules) (sym same) ∙ k ∙ ap (λ x. (name, x) ∷ e.modules) one),
      )
  Loaded-done (refused k) q = cc
  Loaded-done stopped q = cc

  -- A load whose `loading` leaves the modules as they are.
  load_module-Loaded :
      (name : Bytes) (P : OmisModule → Type 0) (loading : Engine → Outcome Engine OmisModule)
      (e : Engine)
      → LeavesModules P e (loading e)
      → Loaded name P e (load_module name loading e)
  unfolding load_module add_module get_module add
  load_module-Loaded name P loading e h = elim (Option-cases (get_module name e)) [
    | inl free ↦ rw (load_module, get_module, free) (by_end free h)
    | inr (m, q) ↦ rw (load_module, get_module, q) (refused refl)
  ]
    where
      by_end :
          get name e.modules ≡ none
          → {r : Outcome Engine OmisModule} → LeavesModules P e r
          → Loaded name P e (elim r [
            | done m f ↦ elim (add_module name m f) [ none ↦ null f | some g ↦ done m g ]
            | null f ↦ null f
            | failed x ↦ failed x
          ])
      by_end free (left_done {m} {f} p k) =
          let unused : has_key name f.modules ≡ false =
            ap (has_key name) k ∙ has_key-get name e.modules free in
          rw (add_module, add, unused) (loaded p free (ap (λ t. (name, m) ∷ t) k))
      by_end free (left_null k) = refused k
      by_end free left_failed = stopped

  -- The module is what encode_module made of a fresh one.
  abbrev pub IsCode :
      Option OmisValue → Option OmisValue → Bytes → Module → Engine → OmisModule → Type 0
  IsCode b c name node e m =
      (made : Handle × B.State) × ((B.make_module name e.bridge ≡ ok made)
        × (encode_module node (fresh_module b c name e made) ≡ done tt m))

  make_code-LeavesModules :
      (b c : Option OmisValue) (name : Bytes) (node : Module) (e : Engine)
      → LeavesModules (IsCode b c name node e) e (make_code b c name node e)
  unfolding make_code
  make_code-LeavesModules b c name node e = elim (Run-cases (B.make_module name e.bridge)) [
    | inl (made, q) ↦ rw (make_code, q) (by_run made q _ refl)
    | inr (x, q) ↦ rw (make_code, q) left_failed
  ]
    where
      by_drop :
          (m : OmisModule) (r : eokas_lang.Prelude.Run (Unit {0} × B.State))
          → LeavesModules (IsCode b c name node e) e (dropped m e r)
      by_drop m (ok (a, bridge)) = left_null refl
      by_drop m (fault x) = left_failed

      by_run :
          (made : Handle × B.State)
          → B.make_module name e.bridge ≡ ok made
          → (r : Outcome OmisModule (Unit {0}))
          → encode_module node (fresh_module b c name e made) ≡ r
          → LeavesModules (IsCode b c name node e) e (elim r [
            | done a m ↦ done m (after m m.bridge e)
            | null m ↦ dropped m e (B.drop_module m.handle m.bridge)
            | failed x ↦ failed x
          ])
      by_run made k (done a m) q = left_done (made, (k, q)) refl
      by_run made k (null m) q = by_drop m _
      by_run made k (failed x) q = left_failed

  -- Every run of coder_t::encode ends in one of three ways: it enters the module that it returns, which
  -- encode_module made of a fresh one, under a name that was free, before all other modules, which stay; it
  -- returns none, and the modules are as they were; or it faults.
  pub encode-Loaded :
      (b c : Option OmisValue) (name : Bytes) (node : Module) (e : Engine)
      → Loaded name (IsCode b c name node e) e (encode b c name node e)
  unfolding encode
  encode-Loaded b c name node e =
      load_module-Loaded name _ (make_code b c name node) e
        (make_code-LeavesModules b c name node e)

  get-head :
      (name : Bytes) (m : OmisModule) (table : List (Bytes × OmisModule))
      → get name ((name, m) ∷ table) ≡ some m
  unfolding get
  get-head name m table = rw (bytes_eq_refl name) refl

  taken-null :
      (name : Bytes) (m : OmisModule) (loading : Engine → Outcome Engine OmisModule) (e : Engine)
      → get_module name e ≡ some m
      → load_module name loading e ≡ null e
  unfolding load_module
  taken-null name m loading e q = rw (load_module, q) refl

  -- A module that coder_t::encode returns is found by its name, and no second module is encoded under that name.
  pub encode-once :
      (b c b' c' : Option OmisValue) (name : Bytes) (node node' : Module) (m : OmisModule)
      (e f : Engine)
      → encode b c name node e ≡ done m f
      → (get_module name f ≡ some m) × (encode b' c' name node' f ≡ null f)
  unfolding encode get_module
  encode-once b c b' c' name node node' m e f q =
      let (p, (free, k)) = Loaded-done (encode-Loaded b c name node e) q in
      let found : get name f.modules ≡ some m = ap (get name) k ∙ get-head name m e.modules in
      (found, taken-null name m (make_code b' c' name node') f found)

  -- Of a module that coder_t::encode returns, made where the memory held no targets, the syntax tree has only
  -- statements that are encodable outside of loops, and each handle has one object.
  pub encode-code :
      (name : Bytes) (node : Module) (m : OmisModule) (e f : Engine)
      → encode none none name node e ≡ done m f
      → AllEncodable false node.body × Interned m
  unfolding fresh_module
  encode-code name node m e f q =
      let (p, rest) = Loaded-done (encode-Loaded none none name node e) q in
      let (made, (k, run)) = p in
      let s = fresh_module none none name e made in
      (
        encode_module-AllEncodable node s m (refl, tt) refl refl run,
        encode_module-Interned s m node (tt, tt) run,
      )
