-- ===== src/Omis/Tests.antt =====
-- The theorems of the symbols, of the tables and of the structs, at concrete values.
use eokas_lang.Prelude.{
  ◌≡◌, refl, true, false, none, some, List, [], ◌∷◌, ◌++◌, Bytes, bytes_eq, codes, arith,
}
use eokas_lang.Omis.State.{OmisType, OmisValue, Scope}
use eokas_lang.Omis.Scopes.{get, find_symbol}
use eokas_lang.Omis.Symbols.{symbol_of, visible, find_symbol-visible}
use eokas_lang.Omis.Structs.{
  Member, get_member, member_at, get_member_index, member_type, add_member, inherit, extends,
}
use eokas_lang.Omis.Members.{Distinct, extends-Distinct, extends-get_member, extends-all}
use eokas_lang.Omis.Indices.{get_member_index-member_at}

abbrev int_type : OmisType
int_type = record { id = 1; handle = 4; name = codes "i32" }

abbrev base_type : OmisType
base_type = record { id = 2; handle = 12; name = codes "Object" }

abbrev field : Bytes → Member
field name = record { name = name; type = int_type; value = none }

abbrev base_members : List Member
base_members = field (codes "base") ∷ field (codes "hash") ∷ []

abbrev members : List Member
members = field (codes "size") ∷ []

abbrev value_a : OmisValue
value_a = record { id = 3; type = int_type; handle = 20 }

abbrev value_b : OmisValue
value_b = record { id = 4; type = int_type; handle = 36 }

abbrev inner : Scope
inner = record { func = none; types = []; values = (codes "x", value_a) ∷ [] }

abbrev outer : Scope
outer = record {
  func = none;
  types = [];
  values = (codes "y", value_b) ∷ (codes "x", value_b) ∷ [];
}

find_symbol-visible_example :
    symbol_of (find_symbol (λ (c : Scope). c.values) (codes "y") true inner (outer ∷ []))
    ≡ get (codes "y") (inner.values ++ visible (λ (c : Scope). c.values) (outer ∷ []))
find_symbol-visible_example =
    find_symbol-visible (λ (c : Scope). c.values) (codes "y") true inner (outer ∷ [])

extends-Distinct_example : Distinct (extends base_type base_members members).1
unfolding get_member
extends-Distinct_example = extends-Distinct base_type base_members members (refl, tt)

size-found : get_member (codes "size") members ≡ some (field (codes "size"))
unfolding get_member bytes_eq
size-found = refl

extends-get_member_example :
    get_member (codes "size") (extends base_type base_members members).1
    ≡ some (field (codes "size"))
extends-get_member_example =
    extends-get_member base_type base_members members (codes "size") (field (codes "size"))
      size-found

hash-found : get_member (codes "hash") base_members ≡ some (field (codes "hash"))
unfolding get_member bytes_eq
hash-found = refl

hash-not_base : bytes_eq (codes "hash") (codes "base") ≡ false
unfolding bytes_eq
hash-not_base = refl

base-taken : (extends base_type base_members members).0 ≡ true
unfolding extends inherit add_member get_member member_type bytes_eq
base-taken = refl

extends-all_example :
    get_member (codes "hash") (extends base_type base_members members).1
    ≡ some (field (codes "hash"))
extends-all_example =
    extends-all base_type base_members members (codes "hash") (field (codes "hash")) hash-not_base
      hash-found base-taken

get_member_index-member_at_example :
    member_at (get_member_index (codes "hash") base_members) base_members
    ≡ get_member (codes "hash") base_members
get_member_index-member_at_example =
    get_member_index-member_at (codes "hash") base_members (omega arith)
