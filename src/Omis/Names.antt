-- ===== src/Omis/Names.antt =====
-- Which types a look-up of src/omis/model.cpp finds, before and after a run.
use eokas_lang.Prelude.{
  ◌≡◌, refl, sym, ◌∙◌, true, Option, none, some, List, ◌∷◌, Bytes, Option-cases, inl, inr,
}
use eokas_lang.Parser.Monad.{done}
use eokas_lang.Omis.Bridge.{Bridge}
use eokas_lang.Omis.State.{OmisType, OmisModule, Scope}
use eokas_lang.Omis.Scopes.{get, look_up, find_symbol, get_type_symbol}
use eokas_lang.Omis.Steady.Rules.{Run}

module _ ⦃B : Bridge⦄ where
  -- The scopes have a type of this name, the current one first.
  abbrev pub Names : Bytes → OmisType → OmisModule → Type 0
  Names name type s = get_type_symbol name true s ≡ done (some type) s

  abbrev table_of : Scope → List (Bytes × OmisType)
  table_of c = c.types

  abbrev type_in : Option (OmisType × Scope) → Option OmisType
  type_in o = elim o [ some (t, c) ↦ some t | none ↦ none ]

  -- The types that a look-up finds only depend on the tables of types.
  type_in-same :
      (name : Bytes) (c d : Scope) (outer : List Scope)
      → d.types ≡ c.types
      → type_in (look_up table_of name (d ∷ outer)) ≡ type_in (look_up table_of name (c ∷ outer))
  unfolding look_up
  type_in-same name c d outer e = elim (Option-cases (get name c.types)) [
    | inl q ↦ rw (look_up, e, q) refl
    | inr (t, q) ↦ rw (look_up, e, q) refl
  ]

  get_type_symbol-in :
      (name : Bytes) (s : OmisModule)
      → get_type_symbol name true s ≡ done (type_in (look_up table_of name (s.scope ∷ s.parents))) s
  unfolding get_type_symbol find_symbol
  get_type_symbol-in name s = refl

  pub Names-run :
      (name : Bytes) (type : OmisType) (s t : OmisModule)
      → Run s t
      → Names name type s
      → Names name type t
  Names-run name type s t r e =
      let found : type_in (look_up table_of name (s.scope ∷ s.parents)) ≡ some type =
        (let g = sym (get_type_symbol-in name s) ∙ e in cc) in
      let same : type_in (look_up table_of name (t.scope ∷ s.parents)) ≡ some type =
        type_in-same name s.scope t.scope s.parents r.restores.types ∙ found in
      get_type_symbol-in name t ∙ rw (r.restores.parents, same) refl
