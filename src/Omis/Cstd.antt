-- ===== src/Omis/Cstd.antt =====
-- src/omis/x-module-cstd.cpp: the functions of C that a module declares.
use eokas_lang.Prelude.{Bool, true, false, List, [], ◌∷◌, Bytes, codes}
use eokas_lang.Omis.Bridge.{Bridge, BasicType}
use eokas_lang.Omis.State.{OmisType, M, ◌>>=◌, ◌>>◌, pure, nullable}
use eokas_lang.Omis.Scopes.{add_value_symbol}
use eokas_lang.Omis.Objects.{basic, value_func}

module _ ⦃B : Bridge⦄ where
  -- The types of the arguments, from the first on.
  unfoldable pub basics : List BasicType → M (List OmisType)
  basics [] = pure []
  basics (b ∷ rest) = do type ← basic b; types ← basics rest; pure (type ∷ types)

  -- The body that all the methods have. What add_value_symbol returns is not looked at.
  unfoldable pub declare : Bytes → BasicType → List BasicType → Bool → M (Unit {0})
  declare name ret args varg = do
    type ← basic ret
    types ← basics args
    func ← value_func name type types varg
    added ← nullable (add_value_symbol name func)
    pure tt

  -- omis_module_cstd_t::printf
  abbrev pub printf : M (Unit {0})
  printf = declare (codes "printf") BasicType.i32 (BasicType.bytes ∷ []) true

  -- omis_module_cstd_t::sprintf
  abbrev pub sprintf : M (Unit {0})
  sprintf = declare (codes "sprintf") BasicType.i32 (BasicType.bytes ∷ BasicType.bytes ∷ []) true

  -- omis_module_cstd_t::malloc
  abbrev pub malloc : M (Unit {0})
  malloc = declare (codes "malloc") BasicType.bytes (BasicType.i64 ∷ []) false

  -- omis_module_cstd_t::free
  abbrev pub free : M (Unit {0})
  free = declare (codes "free") BasicType.void (BasicType.bytes ∷ []) false

  -- omis_module_cstd_t::strlen
  abbrev pub strlen : M (Unit {0})
  strlen = declare (codes "strlen") BasicType.i32 (BasicType.bytes ∷ []) true

  -- omis_module_cstd_t::main
  unfoldable pub cstd_main : M (Unit {0})
  cstd_main = do printf; sprintf; malloc; free; strlen
