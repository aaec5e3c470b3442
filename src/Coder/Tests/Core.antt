-- ===== src/Coder/Tests/Core.antt =====
-- The core types of src/omis/x-module-core.cpp, over the backend of Coder/Counter.
use eokas_lang.Prelude.{
  ℕ, ◌*◌, ◌==◌, Option, none, some, List, [], ◌∷◌, Bytes, codes, if◌then◌else◌,
}
use eokas_lang.Omis.State.{OmisType, OmisModule}
use eokas_lang.Omis.Structs.{Member}
use eokas_lang.Coder.Counter.{counter, start}

abbrev core_type : Bytes → ℕ → OmisType
core_type name n = record { id = n; handle = n * 16; name = name }

abbrev info : OmisType
info = core_type (codes "TypeInfo") 41

abbrev upper : OmisType
upper = core_type (codes "String") 42

abbrev lower : OmisType
lower = core_type (codes "string") 43

abbrev chars : OmisType
chars = core_type (codes "$cstr") 44

abbrev word : OmisType
word = core_type (codes "u64") 45

abbrev root : OmisType
root = core_type (codes "Object") 46

-- A module whose root names the types, in a scope within it.
abbrev core_start : OmisModule ⦃B = counter⦄
core_start = record start {
  parents =
      record {
        func = none;
        types =
            (codes "TypeInfo", info)
            ∷ (codes "String", upper)
            ∷ (codes "string", lower)
            ∷ (codes "$cstr", chars)
            ∷ (codes "u64", word)
            ∷ (codes "Object", root)
            ∷ [];
        values = [];
      }
      ∷ [];
}

abbrev a_member : Bytes → ℕ → Member
a_member name n = record {
  name = name;
  type = info;
  value = some (record { id = n; type = info; handle = n * 16 });
}

abbrev root_members : List Member
root_members =
    a_member (codes "typeinfo") 51 ∷ a_member (codes "string") 52 ∷ a_member (codes "hash") 53 ∷ []

abbrev struct_of : OmisType → Option (List Member)
struct_of type = if type.id == 46 then some root_members else none
