-- ===== src/Omis/Members.antt =====
-- The members of omis_struct_t: names are unique, and a base's members are taken over.
use mathlib.Core.Option.{some-injective, none-ne-some}
use eokas_lang.Prelude.{
  ◌≡◌, refl, sym, ap, ◌∙◌, true, false, Option, none, some, List, [], ◌∷◌, ◌++◌, Bytes, codes,
  bytes_eq, bytes_eq_refl, bytes_eq_sound, Bool-cases, Option-cases, inl, inr, ◌⊎◌,
}
use eokas_lang.Omis.State.{OmisType, OmisValue}
use eokas_lang.Omis.Structs.{Member, get_member, member_type, add_member, inherit, kept_or, extends}

-- No name stands twice.
abbrev pub Distinct : List Member → Type 0
Distinct [] = Unit
Distinct (m ∷ rest) = (get_member m.name rest ≡ none) × Distinct rest

bytes_eq_sym : (xs ys : Bytes) → bytes_eq xs ys ≡ false → bytes_eq ys xs ≡ false
bytes_eq_sym xs ys h = elim (Bool-cases (bytes_eq ys xs)) [
  | inl q ↦
      let same : ys ≡ xs = bytes_eq_sound ys xs q in
      cc (sym (bytes_eq_refl xs), ap (λ w. bytes_eq xs w) same, h)
  | inr q ↦ q
]

get_member-append :
    (name : Bytes) (ms ns : List Member)
    → get_member name (ms ++ ns)
      ≡ elim (get_member name ms) [ some m ↦ some m | none ↦ get_member name ns ]
unfolding get_member
get_member-append name [] ns = refl
get_member-append name (m ∷ rest) ns = elim (Bool-cases (bytes_eq m.name name)) [
  | inl q ↦ rw q refl
  | inr q ↦ rw (q, get_member-append name rest ns) refl
]

get_member-kept :
    (name : Bytes) (ms ns : List Member) (m : Member)
    → get_member name ms ≡ some m
    → get_member name (ms ++ ns) ≡ some m
get_member-kept name ms ns m e = rw (get_member-append name ms ns, e) refl

get_member-last :
    (m : Member) (ms : List Member)
    → get_member m.name ms ≡ none
    → get_member m.name (ms ++ (m ∷ [])) ≡ some m
unfolding get_member
get_member-last m ms e =
    rw (get_member-append m.name ms (m ∷ []), e, get_member, bytes_eq_refl m.name) refl

get_member-tail :
    (name : Bytes) (m : Member) (rest : List Member)
    → get_member name (m ∷ rest) ≡ none
    → (bytes_eq m.name name ≡ false) × (get_member name rest ≡ none)
unfolding get_member
get_member-tail name m rest e = elim (Bool-cases (bytes_eq m.name name)) [
  | inl q ↦ absurd (none-ne-some m (sym e ∙ rw q refl))
  | inr q ↦ (q, sym (rw q refl) ∙ e)
]

append-Distinct :
    (m : Member) (ms : List Member)
    → get_member m.name ms ≡ none
    → Distinct ms
    → Distinct (ms ++ (m ∷ []))
unfolding get_member
append-Distinct m [] e d = (refl, tt)
append-Distinct m (h ∷ rest) e (f, d) =
    let (q, g) = get_member-tail m.name h rest e in
    (
      rw (get_member-append h.name rest (m ∷ []), f, get_member, bytes_eq_sym h.name m.name q) refl,
      append-Distinct m rest g d,
    )

-- The two ends of add_member.
add_member-cases :
    (name : Bytes) (type : Option OmisType) (value : Option OmisValue) (ms : List Member)
    → (add_member name type value ms ≡ none)
      ⊎ ((t : OmisType) × ((member_type type value ≡ some t)
            × ((get_member name ms ≡ none)
                × (add_member name type value ms
                    ≡ some (ms ++ (record { name = name; type = t; value = value } ∷ []))))))
unfolding add_member
add_member-cases name type value ms = elim (Option-cases (get_member name ms)) [
  | inl e ↦ elim (Option-cases (member_type type value)) [
    | inl f ↦ inl (rw (add_member, e, f) refl)
    | inr (t, f) ↦ inr (t, (f, (e, rw (add_member, e, f) refl)))
  ]
  | inr (m, e) ↦ inl (rw (add_member, e) refl)
]

-- A property of lists of members that `add_member` and `inherit` keep.
module _ (P : List Member → Type 0)
    (step : (m : Member) (ms : List Member)
      → get_member m.name ms ≡ none
      → P ms
      → P (ms ++ (m ∷ []))) where
  add_member-keeps :
      (name : Bytes) (type : Option OmisType) (value : Option OmisValue) (ms : List Member)
      → P ms
      → P (kept_or ms (add_member name type value ms))
  add_member-keeps name type value ms p = elim (add_member-cases name type value ms) [
    | inl e ↦ rw e p
    | inr (t, (f, (e, g))) ↦ rw g (step (record { name = name; type = t; value = value }) ms e p)
  ]

  inherit-keeps : (base ms : List Member) → P ms → P (inherit base ms).1
  unfolding inherit
  inherit-keeps [] ms p = p
  inherit-keeps (m ∷ rest) ms p = elim (Bool-cases (bytes_eq m.name (codes "base"))) [
    | inl q ↦ rw q (inherit-keeps rest ms p)
    | inr q ↦ elim (add_member-cases m.name (some m.type) m.value ms) [
      | inl e ↦ rw (q, e) p
      | inr (t, (f, (e, g))) ↦
          rw (q, g)
            (inherit-keeps rest _
              (step (record { name = m.name; type = t; value = m.value }) ms e p))
    ]
  ]

  extends-keeps :
      (base : OmisType) (base_members ms : List Member) → P ms → P (extends base base_members ms).1
  unfolding extends
  extends-keeps base base_members ms p =
      inherit-keeps base_members _ (add_member-keeps (codes "base") (some base) none ms p)

-- A struct whose names are unique has unique names after `extends`, whatever that returns.
pub extends-Distinct :
    (base : OmisType) (base_members members : List Member)
    → Distinct members
    → Distinct (extends base base_members members).1
extends-Distinct base base_members members =
    extends-keeps Distinct append-Distinct base base_members members

-- A member is still found by its name, with its type and its value, after `extends`, whatever that returns.
pub extends-get_member :
    (base : OmisType) (base_members members : List Member) (name : Bytes) (m : Member)
    → get_member name members ≡ some m
    → get_member name (extends base base_members members).1 ≡ some m
extends-get_member base base_members members name m =
    extends-keeps (λ ms. get_member name ms ≡ some m) (λ n ms e. get_member-kept name ms (n ∷ []) m)
      base base_members members

-- The ways of one pass of the loop: `base` is skipped, or a name is taken, or the member is added.
inherit-cases :
    (m : Member) (rest ms : List Member)
    → ((bytes_eq m.name (codes "base") ≡ true) × (inherit (m ∷ rest) ms ≡ inherit rest ms))
      ⊎ ((inherit (m ∷ rest) ms).0 ≡ false)
      ⊎ ((get_member m.name ms ≡ none) × (inherit (m ∷ rest) ms ≡ inherit rest (ms ++ (m ∷ []))))
unfolding inherit member_type
inherit-cases m rest ms = elim (Bool-cases (bytes_eq m.name (codes "base"))) [
  | inl q ↦ inl (q, rw (inherit, q) refl)
  | inr q ↦ elim (add_member-cases m.name (some m.type) m.value ms) [
    | inl e ↦ inr (inl (rw (inherit, q, e) refl))
    | inr (t, (f, (e, g))) ↦
        let same : m.type ≡ t = some-injective m.type t f in
        inr (inr (e, rw (inherit, q, g, sym same) refl))
  ]
]

get_member-cases :
    (name : Bytes) (m h : Member) (rest : List Member)
    → get_member name (h ∷ rest) ≡ some m
    → ((h.name ≡ name) × (h ≡ m)) ⊎ (get_member name rest ≡ some m)
unfolding get_member
get_member-cases name m h rest e = elim (Bool-cases (bytes_eq h.name name)) [
  | inl q ↦ inl (bytes_eq_sound h.name name q, some-injective h m (sym (rw q refl) ∙ e))
  | inr q ↦ inr (sym (rw q refl) ∙ e)
]

-- A loop that ends with `true` has taken over each member of the base but `base`.
inherit-all :
    (base ms : List Member) (name : Bytes) (m : Member)
    → bytes_eq name (codes "base") ≡ false
    → get_member name base ≡ some m
    → (inherit base ms).0 ≡ true
    → get_member name (inherit base ms).1 ≡ some m
unfolding get_member
inherit-all [] ms name m n e ok = cc
inherit-all (h ∷ rest) ms name m n e ok = elim (inherit-cases h rest ms) [
  | inl (b, s) ↦ elim (get_member-cases name m h rest e) [
    | inl (q, w) ↦ cc (ap (λ x. bytes_eq x (codes "base")) q, b, n)
    | inr w ↦ rw s (inherit-all rest ms name m n w (sym (ap (λ x. x.0) s) ∙ ok))
  ]
  | inr (inl s) ↦ cc (s, ok)
  | inr (inr (f, s)) ↦ elim (get_member-cases name m h rest e) [
    | inl (q, w) ↦
        let added : get_member name (ms ++ (h ∷ [])) ≡ some m =
          ap (λ x. get_member x (ms ++ (h ∷ []))) (sym q) ∙ get_member-last h ms f ∙ ap some w in
        rw s (
          inherit-keeps (λ xs. get_member name xs ≡ some m)
            (λ x xs g. get_member-kept name xs (x ∷ []) m) rest (ms ++ (h ∷ [])) added)
    | inr w ↦ rw s (inherit-all rest (ms ++ (h ∷ [])) name m n w (sym (ap (λ x. x.0) s) ∙ ok))
  ]
]

-- After an `extends` that returns true, each member of the base but `base` is found in the struct by its name,
-- with its type and its value.
pub extends-all :
    (base : OmisType) (base_members members : List Member) (name : Bytes) (m : Member)
    → bytes_eq name (codes "base") ≡ false
    → get_member name base_members ≡ some m
    → (extends base base_members members).0 ≡ true
    → get_member name (extends base base_members members).1 ≡ some m
unfolding extends
extends-all base base_members members = inherit-all base_members _
