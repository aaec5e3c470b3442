-- ===== src/Omis/CoreMembers.antt =====
-- The members that the methods `main` of the core types of src/omis/x-module-core.cpp make.
use eokas_lang.Prelude.{◌≡◌, List, Bytes, codes}
use eokas_lang.Parser.Monad.{done}
use eokas_lang.Omis.Bridge.{Bridge}
use eokas_lang.Omis.State.{OmisType, OmisModule, M}
use eokas_lang.Omis.Structs.{Member}
use eokas_lang.Omis.Answers.{Answers}
use eokas_lang.Omis.Steady.Rules.{Steady}
use eokas_lang.Omis.Names.{Names}
use eokas_lang.Omis.Listing.{Kind, listed}

module _ ⦃B : Bridge⦄ where
  -- The action ends well in the state `s`, with the members of the list.
  abbrev pub Makes : M (List Member) → OmisModule → List (Bytes × Kind) → Type 0
  Makes m s l = (ms : List Member) × ((t : OmisModule) × ((m s ≡ done ms t) × (listed ms ≡ l)))

  module _ (info upper lower chars word root : OmisType) where
    -- The six types that the core types name are found.
    pub record Knows (s : OmisModule) : Type 0 where
      pub type_info : Names (codes "TypeInfo") info s
      pub string_upper : Names (codes "String") upper s
      pub string_lower : Names (codes "string") lower s
      pub cstr : Names (codes "$cstr") chars s
      pub u64 : Names (codes "u64") word s
      pub object : Names (codes "Object") root s

    -- Where the types are found, the action ends with a result of which `P` holds, and they still are.
    record Gives {A : Type 0} (m : M A) (P : A → Type 0) : Type 0 where
      at :
          (s : OmisModule)
          → Knows s
          → (a : A) × ((t : OmisModule) × ((m s ≡ done a t) × (Knows t × P a)))

    abbrev Anything : {A : Type 0} → A → Type 0
    Anything a = Unit {0}

    abbrev Lists : List (Bytes × Kind) → List Member → Type 0
    Lists l ms = listed ms ≡ l
