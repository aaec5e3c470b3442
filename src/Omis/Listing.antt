-- ===== src/Omis/Listing.antt =====
-- The members of a struct of src/omis/model.cpp by their names and kinds, and what add_member and extends do to
-- that list.
use eokas_lang.Prelude.{
  ◌≡◌, refl, sym, ap, ◌∙◌, Bool, true, false, Option, none, some, List, [], ◌∷◌, ◌++◌, ◌||◌, Bytes,
  codes, bytes_eq, if◌then◌else◌, Bool-cases, inl, inr,
}
use eokas_lang.Omis.State.{OmisType, OmisValue}
use eokas_lang.Omis.Structs.{Member, get_member, member_type, add_member, kept_or, inherit, extends}

-- What a member is: a field with its type, or a method.
pub data Kind : Type 0 where
  field : OmisType → Kind
  a_method : Kind

abbrev kind_of : Member → Kind
kind_of m = elim m.value [ some v ↦ a_method | none ↦ field m.type ]

-- The names of the members in their order, with their kinds.
abbrev pub listed : List Member → List (Bytes × Kind)
listed [] = []
listed (m ∷ ms) = (m.name, kind_of m) ∷ listed ms

abbrev is_listed : Bytes → List (Bytes × Kind) → Bool
is_listed name [] = false
is_listed name ((n, k) ∷ rest) = bytes_eq n name || is_listed name rest

-- One more at the end, unless its name is there.
abbrev pub put : Bytes → Kind → List (Bytes × Kind) → List (Bytes × Kind)
put name k l = if is_listed name l then l else l ++ ((name, k) ∷ [])

get_member-unlisted :
    (name : Bytes) (ms : List Member)
    → is_listed name (listed ms) ≡ false
    → get_member name ms ≡ none
unfolding get_member
get_member-unlisted name [] e = refl
get_member-unlisted name (m ∷ ms) e = elim (Bool-cases (bytes_eq m.name name)) [
  | inl q ↦ let f : true ≡ false = sym (rw q refl) ∙ e in cc
  | inr q ↦ rw q (get_member-unlisted name ms (sym (rw q refl) ∙ e))
]

get_member-listed :
    (name : Bytes) (ms : List Member)
    → is_listed name (listed ms) ≡ true
    → (m : Member) × (get_member name ms ≡ some m)
unfolding get_member
get_member-listed name [] e = cc
get_member-listed name (m ∷ ms) e = elim (Bool-cases (bytes_eq m.name name)) [
  | inl q ↦ (m, rw q refl)
  | inr q ↦ let (n, f) = get_member-listed name ms (sym (rw q refl) ∙ e) in (n, rw q f)
]

listed-append : (xs ys : List Member) → listed (xs ++ ys) ≡ listed xs ++ listed ys
listed-append [] ys = refl
listed-append (x ∷ xs) ys = ap (λ l. (x.name, kind_of x) ∷ l) (listed-append xs ys)

pub add_member-listed :
    (name : Bytes) (type : Option OmisType) (value : Option OmisValue) (t : OmisType)
    (ms : List Member)
    → member_type type value ≡ some t
    → listed (kept_or ms (add_member name type value ms))
      ≡ put name (kind_of (record { name = name; type = t; value = value })) (listed ms)
unfolding add_member
add_member-listed name type value t ms e = elim (Bool-cases (is_listed name (listed ms))) [
  | inl q ↦ let (m, f) = get_member-listed name ms q in rw (q, add_member, f) refl
  | inr q ↦
      rw (q, add_member, get_member-unlisted name ms q, e)
        (listed-append ms (record { name = name; type = t; value = value } ∷ []))
]

is_listed-append :
    (name : Bytes) (xs ys : List (Bytes × Kind))
    → is_listed name xs ≡ true
    → is_listed name (xs ++ ys) ≡ true
is_listed-append name [] ys e = cc
is_listed-append name ((n, k) ∷ xs) ys e = elim (Bool-cases (bytes_eq n name)) [
  | inl q ↦ rw q refl
  | inr q ↦ rw q (is_listed-append name xs ys (sym (rw q refl) ∙ e))
]

is_listed-put :
    (name other : Bytes) (k : Kind) (l : List (Bytes × Kind))
    → is_listed name l ≡ true
    → is_listed name (put other k l) ≡ true
is_listed-put name other k l e = elim (Bool-cases (is_listed other l)) [
  | inl q ↦ rw q e
  | inr q ↦ rw q (is_listed-append name l _ e)
]

not_base : bytes_eq (codes "typeinfo") (codes "base") ≡ false
unfolding bytes_eq
not_base = refl

add_member-taken :
    (name : Bytes) (type : Option OmisType) (value : Option OmisValue) (ms : List Member)
    → is_listed name (listed ms) ≡ true
    → add_member name type value ms ≡ none
unfolding add_member
add_member-taken name type value ms e =
    let (m, f) = get_member-listed name ms e in rw (add_member, f) refl

inherit-taken :
    (first : Member) (rest ms : List Member)
    → first.name ≡ codes "typeinfo"
    → is_listed (codes "typeinfo") (listed ms) ≡ true
    → inherit (first ∷ rest) ms ≡ (false, ms)
unfolding inherit
inherit-taken first rest ms e h =
    let other : bytes_eq first.name (codes "base") ≡ false = rw e not_base in
    let taken : add_member first.name (some first.type) first.value ms ≡ none =
      add_member-taken first.name (some first.type) first.value ms (rw e h) in
    rw (inherit, other, taken) refl

-- The first member of the base has a name that is taken: only the member `base` is added.
extends-listed :
    (base : OmisType) (first : Member) (rest ms : List Member)
    → first.name ≡ codes "typeinfo"
    → is_listed (codes "typeinfo") (listed ms) ≡ true
    → listed (extends base (first ∷ rest) ms).1 ≡ put (codes "base") (field base) (listed ms)
unfolding extends member_type
extends-listed base first rest ms e h =
    let based : List Member = kept_or ms (add_member (codes "base") (some base) none ms) in
    let l : listed based ≡ put (codes "base") (field base) (listed ms) =
      add_member-listed (codes "base") (some base) none base ms refl in
    let has : is_listed (codes "typeinfo") (listed based) ≡ true =
      rw l (is_listed-put (codes "typeinfo") (codes "base") (field base) (listed ms) h) in
    rw (extends, inherit-taken first rest based e has) l

-- The members of `Object`.
abbrev pub object_listing : List (Bytes × Kind)
object_listing =
    (codes "typeinfo", a_method) ∷ (codes "string", a_method) ∷ (codes "hash", a_method) ∷ []

pub extends-object :
    (base : OmisType) (members ms : List Member)
    → listed members ≡ object_listing
    → listed ms ≡ object_listing
    → listed (extends base members ms).1 ≡ put (codes "base") (field base) object_listing
unfolding bytes_eq
extends-object base [] ms e h = cc
extends-object base (first ∷ rest) ms e h =
    let name : first.name ≡ codes "typeinfo" = cc in
    extends-listed base first rest ms name (rw h refl)
    ∙ ap (λ k. put (codes "base") (field base) k) h
