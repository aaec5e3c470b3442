-- ===== src/Omis/Indices.antt =====
-- The indices of the members of omis_struct_t.
use Prim.Native.Nat.{◌^◌}
use eokas_lang.Prelude.{
  ℕ, ◌+◌, ◌-◌, ◌≤◌, ◌≡◌, refl, sym, ap, ◌∙◌, ◌==◌, true, false, none, List, [], ◌∷◌, Bytes,
  bytes_eq, Bool-cases, inl, inr, length, arith,
}
use eokas_lang.Omis.Structs.{Member, get_member, member_at, index_from, get_member_index}

member_at-past : (i : ℕ) (ms : List Member) → length ms ≤ i → member_at i ms ≡ none
unfolding member_at
member_at-past i [] h = refl
member_at-past i (m ∷ rest) h =
    let q : (i == 0) ≡ false = ground arith in rw q (member_at-past (i - 1) rest (omega arith))

index_from-bound :
    (i : ℕ) (name : Bytes) (ms : List Member)
    → i + length ms ≤ 2 ^ 64 - 1
    → i ≤ index_from i name ms
unfolding index_from
index_from-bound i name [] h = omega arith
index_from-bound i name (m ∷ rest) h = elim (Bool-cases (bytes_eq m.name name)) [
  | inl q ↦ rw q (omega arith)
  | inr q ↦ rw q (omega (arith, index_from-bound (i + 1) name rest (omega arith)))
]

member_at-index :
    (i : ℕ) (name : Bytes) (ms : List Member)
    → i + length ms ≤ 2 ^ 64 - 1
    → member_at (index_from i name ms - i) ms ≡ get_member name ms
unfolding member_at index_from get_member
member_at-index i name [] h = refl
member_at-index i name (m ∷ rest) h = elim (Bool-cases (bytes_eq m.name name)) [
  | inl q ↦ let z : (i - i == 0) ≡ true = ground arith in rw (q, z) refl
  | inr q ↦
      let b = index_from-bound (i + 1) name rest (omega arith) in
      let z : (index_from (i + 1) name rest - i == 0) ≡ false = ground (arith, b) in
      let d : index_from (i + 1) name rest - i - 1 ≡ index_from (i + 1) name rest - (i + 1) =
        omega arith in
      rw (q, z, d) (member_at-index (i + 1) name rest (omega arith))
]

-- The index of a name leads to the member that is found by the name, and to none where the name has none,
-- if there are fewer members than the largest `size_t`.
pub get_member_index-member_at :
    (name : Bytes) (members : List Member)
    → length members ≤ 2 ^ 64 - 1
    → member_at (get_member_index name members) members ≡ get_member name members
get_member_index-member_at name members h =
    let z : get_member_index name members - 0 ≡ get_member_index name members = omega arith in
    sym (ap (λ i. member_at i members) z) ∙ member_at-index 0 name members (omega arith)
