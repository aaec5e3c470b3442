-- ===== src/Engine.antt =====
-- src/omis/engine.cpp, src/app/coder.cpp: the modules of a program by name, and the code generator's run on
-- a syntax tree.
pub mod Loading
pub mod Tests
use eokas_lang.Prelude.{
  ℕ, Bool, true, false, Option, none, some, List, [], ◌∷◌, Bytes, if◌then◌else◌, Run, ok, fault,
}
use eokas_lang.Ast.{Module}
use eokas_lang.Ast.Map.{has_key}
use eokas_lang.Parser.Monad.{Outcome, done, null, failed}
use eokas_lang.Omis.Bridge.{Bridge, Handle, BasicType}
use eokas_lang.Omis.State.{OmisType, OmisValue, OmisModule}
use eokas_lang.Omis.Scopes.{get, add}
use eokas_lang.Coder.Encode.{encode_module}

-- omis_engine_t, with what its modules share: the backend, the `static` types and the free addresses.
pub record Engine ⦃B : Bridge⦄ : Type 0 where
  pub bridge : B.State
  pub statics : BasicType → Option OmisType
  pub next_id : ℕ
  pub modules : List (Bytes × OmisModule)

module _ ⦃B : Bridge⦄ where
  -- omis_engine_t::add_module
  unfoldable pub add_module : Bytes → OmisModule → Engine → Option Engine
  unfolding add
  add_module name unit e = elim (add name unit e.modules) [
    | none ↦ none
    | some table ↦ some (record e { modules = table })
  ]

  -- omis_engine_t::get_module
  unfoldable pub get_module : Bytes → Engine → Option OmisModule
  unfolding get
  get_module name e = get name e.modules

  -- omis_engine_t::load_module, where `loading` makes a module
  unfoldable pub load_module :
      Bytes → (Engine → Outcome Engine OmisModule) → Engine → Outcome Engine OmisModule
  unfolding get_module add_module
  load_module name loading e = elim (get_module name e) [
    | some unit ↦ null e
    | none ↦ elim (loading e) [
      | done unit f ↦ elim (add_module name unit f) [ none ↦ null f | some g ↦ done unit g ]
      | null f ↦ null f
      | failed x ↦ failed x
    ]
  ]

  -- The constructor of omis_module_t, which sets neither target: they are what the memory holds.
  unfoldable pub fresh_module :
      Option OmisValue → Option OmisValue → Bytes → Engine → Handle × B.State → OmisModule
  fresh_module break_point continue_point name e (handle, bridge) = record {
    bridge = bridge;
    name = name;
    handle = handle;
    scope = record { func = none; types = []; values = [] };
    parents = [];
    usings = [];
    types = [];
    values = [];
    break_point = break_point;
    continue_point = continue_point;
    statics = e.statics;
    next_id = e.next_id;
  }

  -- What a module's run leaves of the engine.
  abbrev pub after : OmisModule → B.State → Engine → Engine
  after unit bridge e = record e { bridge = bridge; statics = unit.statics; next_id = unit.next_id }

  abbrev pub dropped : OmisModule → Engine → Run (Unit {0} × B.State) → Outcome Engine OmisModule
  dropped unit e (ok (a, bridge)) = null (after unit bridge e)
  dropped unit e (fault x) = failed x

  -- A module that is made and then encoded.
  abbrev pub encode_fresh : Module → Engine → OmisModule → Outcome Engine OmisModule
  encode_fresh node e fresh = elim (encode_module node fresh) [
    | done a unit ↦ done unit (after unit unit.bridge e)
    | null unit ↦ dropped unit e (B.drop_module unit.handle unit.bridge)
    | failed x ↦ failed x
  ]

  -- The lambda of coder_t::encode. A module that fails is deleted.
  unfoldable pub make_code :
      Option OmisValue → Option OmisValue → Bytes → Module → Engine → Outcome Engine OmisModule
  unfolding fresh_module
  make_code break_point continue_point name node e = elim (B.make_module name e.bridge) [
    | ok made ↦ encode_fresh node e (fresh_module break_point continue_point name e made)
    | fault x ↦ failed x
  ]

  -- coder_t::encode
  unfoldable pub encode :
      Option OmisValue → Option OmisValue → Bytes → Module → Engine → Outcome Engine OmisModule
  unfolding load_module make_code
  encode break_point continue_point name node =
      load_module name (make_code break_point continue_point name node)

  abbrev pub ran_on : Engine → Run (Bool × B.State) → Run (Bool × Engine)
  ran_on e (ok (result, bridge)) = ok (result, record e { bridge = bridge })
  ran_on e (fault x) = fault x

  -- omis_engine_t::jit, aot
  unfoldable pub jit : OmisModule → Engine → Run (Bool × Engine)
  jit unit e = ran_on e (B.jit unit.handle e.bridge)

  unfoldable pub aot : OmisModule → Engine → Run (Bool × Engine)
  aot unit e = ran_on e (B.aot unit.handle e.bridge)
