-- ===== src/Ast/Map.antt =====
-- The containers of src/ast/nodes.h: `push_back` on a vector, and a `std::map` by its entries.
use eokas_lang.Prelude.{Bool, false, ◌||◌, List, [], ◌∷◌, Bytes, bytes_eq, if◌then◌else◌}

-- `map.find(key) != map.end()`
unfoldable pub has_key {ℓ} : {V : Type ℓ} → Bytes → List (Bytes × V) → Bool
has_key key [] = false
has_key key ((k, v) ∷ rest) = bytes_eq k key || has_key key rest

-- `map[key] = value`
unfoldable pub insert {ℓ} : {V : Type ℓ} → Bytes → V → List (Bytes × V) → List (Bytes × V)
insert key value [] = (key, value) ∷ []
insert key value ((k, v) ∷ rest) =
    if bytes_eq k key then (k, value) ∷ rest else (k, v) ∷ insert key value rest
