-- ===== src/Llvm/Answering.antt =====
-- llvm_bridge_t of src/omis/llvm/llvm.cxx answers what x-module-cstd.cpp asks of its backend.
use eokas_lang.Prelude.{◌≡◌, ◌≢◌, refl, Bool, List, Bytes, codes, ok}
use eokas_lang.Parser.Monad.{done}
use eokas_lang.Omis.Bridge.{Handle, BasicType}
use eokas_lang.Omis.State.{OmisModule}
use eokas_lang.Omis.Symbols.{HasValue}
use eokas_lang.Omis.Cstd.{cstd_main}
use eokas_lang.Omis.Answers.{answered, Answered, IsAnswering}
use eokas_lang.Omis.Declared.{cstd_main-HasValue}
use eokas_lang.Llvm.Api.{Llvm}
use eokas_lang.Llvm.Monad.{◌>>=◌, type_of}
use eokas_lang.Llvm.Types.{type_func, get_type_name, ty_name}
use eokas_lang.Llvm.Values.{value_func, get_value_type}
use eokas_lang.Llvm.Backend.{type_basic, llvm_bridge}
use eokas_lang.Llvm.Laws.{IsLawful}
use eokas_lang.Llvm.Giving.{eq_zero-false, value_type-object}

module _ (L : Llvm) (law : IsLawful L) where
  type_basic-Answered : (b : BasicType) (s : L.State) → Answered (type_basic L b s)
  unfolding type_basic
  type_basic-Answered b s = answered (law.type_handle-ne_zero _)

  type_func-Answered :
      (ret : Handle) (args : List Handle) (varg : Bool) (s : L.State)
      → Answered (type_func L ret args varg s)
  unfolding type_func
  type_func-Answered ret args varg s = answered (law.type_handle-ne_zero _)

  value_func-Answered :
      (m : Handle) (name : Bytes) (type : Handle) (s : L.State)
      → Answered (value_func L m name type s)
  unfolding value_func
  value_func-Answered m name type s =
      let n = law.create_function-ne_zero (L.type_at type) name m s in
      rw (eq_zero-false _ n) (answered n)

  get_value_type-Answered : (h : Handle) → h ≢ 0 → (s : L.State) → Answered (get_value_type L h s)
  unfolding get_value_type
  get_value_type-Answered h n s =
      rw (◌>>=◌, value_type-object L h s n) (answered (law.type_handle-ne_zero _))

  get_type_name-ok :
      (h : Handle)
      → h ≢ 0
      → (s : L.State) → (name : Bytes) × ((t : L.State) × (get_type_name L h s ≡ ok (name, t)))
  unfolding get_type_name type_of
  get_type_name-ok h n s = (ty_name (L.type_at h), (s, rw (eq_zero-false h n) refl))

  pub llvm_bridge-IsAnswering : IsAnswering (llvm_bridge L)
  llvm_bridge-IsAnswering = record {
    type_basic = type_basic-Answered;
    type_func = type_func-Answered;
    value_func = value_func-Answered;
    get_value_type = get_value_type-Answered;
    get_type_name = get_type_name-ok;
  }

  -- Over the backend of a lawful LLVM, omis_module_cstd_t::main ends well on every module, and leaves a value of each
  -- of the five names in the current scope.
  pub llvm-cstd_main :
      (s : OmisModule ⦃B = llvm_bridge L⦄)
      → (t : OmisModule ⦃B = llvm_bridge L⦄) × ((cstd_main ⦃B = llvm_bridge L⦄ s ≡ done tt t)
          × (HasValue ⦃B = llvm_bridge L⦄ (codes "printf") t
              × (HasValue ⦃B = llvm_bridge L⦄ (codes "sprintf") t
                  × (HasValue ⦃B = llvm_bridge L⦄ (codes "malloc") t
                      × (HasValue ⦃B = llvm_bridge L⦄ (codes "free") t
                          × HasValue ⦃B = llvm_bridge L⦄ (codes "strlen") t)))))
  llvm-cstd_main s = cstd_main-HasValue ⦃B = llvm_bridge L⦄ llvm_bridge-IsAnswering s
