-- ===== src/Omis/Interned.antt =====
-- The tables `types` and `values` of omis_module_t: each handle has one object, which keeps its address.
use mathlib.Core.Path.{subst}
use mathlib.Core.Option.{some-injective, none-ne-some}
use eokas_lang.Prelude.{
  ℕ, ◌+◌, ◌≤◌, ◌<◌, ◌≡◌, refl, sym, ap, ◌∙◌, true, none, some, List, [], ◌∷◌, ◌==◌, Bool-cases,
  arith, ◌⊎◌, inl, inr,
}
use eokas_lang.Omis.Bridge.{Bridge, Handle}
use eokas_lang.Omis.State.{OmisType, OmisValue, OmisModule}
use eokas_lang.Omis.Objects.{find_handle, equals_type}

module _ {A : Type 0} where
  find_handle-cases :
      (h k : Handle) (a b : A) (rest : List (Handle × A))
      → find_handle h ((k, b) ∷ rest) ≡ some a
      → ((k ≡ h) × (b ≡ a)) ⊎ (find_handle h rest ≡ some a)
  unfolding find_handle
  find_handle-cases h k a b rest e = elim (Bool-cases (k == h)) [
    | inl q ↦ inl (ground arith, some-injective b a (sym (rw (q) (refl)) ∙ e))
    | inr q ↦ inr (sym (rw (q) (refl)) ∙ e)
  ]

  pub find_handle-add :
      (table : List (Handle × A)) (h k : Handle) (a b : A)
      → find_handle k table ≡ none
      → find_handle h table ≡ some a
      → find_handle h ((k, b) ∷ table) ≡ some a
  unfolding find_handle
  find_handle-add table h k a b f e = elim (Bool-cases (k == h)) [
    | inl q ↦
        let same : k ≡ h = ground arith in
        absurd (none-ne-some a (sym f ∙ ap (λ x. find_handle x table) same ∙ e))
    | inr q ↦ rw q e
  ]

module _ {A : Type 0} (id : A → ℕ) (handle : A → Handle) where
  -- The objects of a table have their key for handle, a handle stands there once, and the addresses
  -- fall from the newest entry on, below `bound`.
  abbrev pub Table : ℕ → List (Handle × A) → Type 0
  Table bound [] = Unit
  Table bound ((h, a) ∷ rest) =
      (handle a ≡ h) × ((id a < bound) × ((find_handle h rest ≡ none) × Table (id a) rest))

  pub Table-weaken : (m n : ℕ) (table : List (Handle × A)) → m ≤ n → Table m table → Table n table
  Table-weaken m n [] l w = tt
  Table-weaken m n ((h, a) ∷ rest) l (e, (lt, (f, w))) = (e, (omega arith, (f, w)))

  pub find_handle-bound :
      (bound : ℕ) (table : List (Handle × A)) (h : Handle) (a : A)
      → Table bound table
      → find_handle h table ≡ some a
      → (id a < bound) × (handle a ≡ h)
  unfolding find_handle
  find_handle-bound bound [] h a w e = cc
  find_handle-bound bound ((k, b) ∷ rest) h a (g, (lt, (f, w))) e =
      elim (find_handle-cases h k a b rest e) [
        | inl (p, q) ↦ (subst (λ x. id x < bound) q lt, cc)
        | inr q ↦ let l = find_handle-bound (id b) rest h a w q in (omega (arith, l.0), l.1)
      ]

  -- Two objects of a table with the same address have the same handle.
  pub address-handle :
      (bound : ℕ) (table : List (Handle × A)) (a b : A)
      → Table bound table
      → find_handle (handle a) table ≡ some a
      → find_handle (handle b) table ≡ some b
      → id a ≡ id b
      → handle a ≡ handle b
  unfolding find_handle
  address-handle bound [] a b w ea eb e = cc
  address-handle bound ((k, c) ∷ rest) a b (g, (lt, (f, w))) ea eb e =
      elim (find_handle-cases (handle a) k a c rest ea) [
        | inl (p, q) ↦ elim (find_handle-cases (handle b) k b c rest eb) [
          | inl (x, y) ↦ cc
          | inr y ↦
              absurd (omega (arith, ap id q, (find_handle-bound (id c) rest (handle b) b w y).0))
        ]
        | inr q ↦ elim (find_handle-cases (handle b) k b c rest eb) [
          | inl (x, y) ↦
              absurd (omega (arith, ap id y, (find_handle-bound (id c) rest (handle a) a w q).0))
          | inr y ↦ address-handle (id c) rest a b w q y e
        ]
      ]

  -- A new entry, at the first free address.
  pub Table-add :
      (bound : ℕ) (table : List (Handle × A)) (h : Handle) (a : A)
      → handle a ≡ h
      → id a ≡ bound
      → find_handle h table ≡ none
      → Table bound table
      → Table (bound + 1) ((h, a) ∷ table)
  Table-add bound table h a e i f w = (e, (omega arith, (f, subst (λ n. Table n table) (sym i) w)))

module _ ⦃B : Bridge⦄ where
  -- Both tables of a module are tables, with addresses below the next free one.
  abbrev pub Interned : OmisModule → Type 0
  Interned s =
      Table (λ (t : OmisType). t.id) (λ t. t.handle) s.next_id s.types
      × Table (λ (v : OmisValue). v.id) (λ v. v.handle) s.next_id s.values

  -- From `s` to `t` the tables only grow.
  pub record Grows (s t : OmisModule) : Type 0 where
    pub interned : Interned s → Interned t
    pub type_kept :
        (h : Handle) (a : OmisType)
        → find_handle h s.types ≡ some a
        → find_handle h t.types ≡ some a
    pub value_kept :
        (h : Handle) (v : OmisValue)
        → find_handle h s.values ≡ some v
        → find_handle h t.values ≡ some v

  pub Grows-of :
      {s t : OmisModule}
      → t.types ≡ s.types
      → t.values ≡ s.values
      → t.next_id ≡ s.next_id
      → Grows s t
  Grows-of {s} {t} a b c = record {
    interned = λ w. rw (a, b, c) w;
    type_kept = λ h x e. rw a e;
    value_kept = λ h x e. rw b e;
  }

  pub Grows-trans : {s t u : OmisModule} → Grows s t → Grows t u → Grows s u
  Grows-trans a b = record {
    interned = λ w. b.interned (a.interned w);
    type_kept = λ h x e. b.type_kept h x (a.type_kept h x e);
    value_kept = λ h x e. b.value_kept h x (a.value_kept h x e);
  }

  -- For two types of the table, where each handle has one object, the test of equals_type, the one on their
  -- addresses and the one on their handles agree.
  pub equals_type-handles :
      (s : OmisModule) (a b : OmisType)
      → Interned s
      → find_handle a.handle s.types ≡ some a
      → find_handle b.handle s.types ≡ some b
      → (equals_type a b ≡ (a.handle == b.handle)) × ((a.id == b.id) ≡ (a.handle == b.handle))
  equals_type-handles s a b (w, v) ea eb = elim (Bool-cases (a.id == b.id)) [
    | inl p ↦
        let same : a.handle ≡ b.handle =
          address-handle _ _ s.next_id s.types a b w ea eb (ground arith) in
        let q : (a.handle == b.handle) ≡ true = ground arith in rw (p, q) (refl, refl)
    | inr p ↦ elim (Bool-cases (a.handle == b.handle)) [
      | inl q ↦
          let same : a.handle ≡ b.handle = ground arith in
          let one : a ≡ b =
            some-injective a b (sym ea ∙ ap (λ h. find_handle h s.types) same ∙ eb) in
          let i : a.id ≡ b.id = ap (λ (t : OmisType). t.id) one in absurd (ground arith)
      | inr q ↦ rw (p, q) (refl, refl)
    ]
  ]
