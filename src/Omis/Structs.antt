-- ===== src/Omis/Structs.antt =====
-- src/omis/model.cpp: omis_struct_t, by the list of its members. The type of a base is all that is kept
-- of it in a member.
use Prim.Native.Nat.{◌^◌}
use eokas_lang.Prelude.{
  ℕ, ◌+◌, ◌-◌, ◌==◌, Bool, true, false, Option, none, some, List, [], ◌∷◌, ◌++◌, Bytes, codes,
  bytes_eq, if◌then◌else◌,
}
use eokas_lang.Omis.State.{OmisType, OmisValue}

-- omis_struct_t::member_t
pub record Member : Type 0 where
  pub name : Bytes
  pub type : OmisType
  pub value : Option OmisValue

-- omis_struct_t::get_member, by name
unfoldable pub get_member : Bytes → List Member → Option Member
get_member name [] = none
get_member name (m ∷ rest) = if bytes_eq m.name name then some m else get_member name rest

-- omis_struct_t::get_member, by index
unfoldable pub member_at : ℕ → List Member → Option Member
member_at index [] = none
member_at index (m ∷ rest) = if index == 0 then some m else member_at (index - 1) rest

-- The loop of get_member_index, from the member `index` on. `return -1` is the largest `size_t`.
unfoldable pub index_from : ℕ → Bytes → List Member → ℕ
index_from index name [] = 2 ^ 64 - 1
index_from index name (m ∷ rest) =
    if bytes_eq m.name name then index else index_from (index + 1) name rest

-- omis_struct_t::get_member_index
abbrev pub get_member_index : Bytes → List Member → ℕ
get_member_index name members = index_from 0 name members

-- The type of a new member, from the two that may be null.
unfoldable pub member_type : Option OmisType → Option OmisValue → Option OmisType
member_type (some type) value = some type
member_type none (some value) = some value.type
member_type none none = none

-- omis_struct_t::add_member: null, or the members with the new one
unfoldable pub add_member :
    Bytes → Option OmisType → Option OmisValue → List Member → Option (List Member)
unfolding get_member member_type
add_member name type value members = elim (get_member name members) [
  | some m ↦ none
  | none ↦ elim (member_type type value) [
    | none ↦ none
    | some t ↦ some (members ++ (record { name = name; type = t; value = value } ∷ []))
  ]
]

-- The loop of `extends` over the members of the base: what it returns, and the members at its end.
unfoldable pub inherit : List Member → List Member → Bool × List Member
unfolding add_member
inherit [] members = (true, members)
inherit (m ∷ rest) members =
    if bytes_eq m.name (codes "base")
    then inherit rest members
    else elim (add_member m.name (some m.type) m.value members) [
      | none ↦ (false, members)
      | some more ↦ inherit rest more
    ]

-- `members` with the result of a call that is not looked at
abbrev pub kept_or : List Member → Option (List Member) → List Member
kept_or members none = members
kept_or members (some more) = more

-- omis_struct_t::extends, of a struct with its members
unfoldable pub extends : OmisType → List Member → List Member → Bool × List Member
unfolding inherit add_member
extends base base_members members =
    inherit base_members (kept_or members (add_member (codes "base") (some base) none members))
