-- ===== src/Prelude/Map.antt =====
-- Go's maps with string keys, as association lists. A lookup takes the first entry of a key, and an
-- insertion replaces it, or adds the key behind the others.
use pwnbridge.Prelude.{◌≡◌, List, [], ◌∷◌, Option, none, some, if◌then◌else◌}
use pwnbridge.Prelude.Text.{Bytes, bytes_eq}

abbrev pub Map {ℓ} : Type ℓ → Type ℓ
Map V = List (Bytes × V)

module _ {ℓ} {V : Type ℓ} where
  unfoldable pub map_lookup : Bytes → Map V → Option V
  map_lookup k [] = none
  map_lookup k ((j, v) ∷ m) = if bytes_eq j k then some v else map_lookup k m

  unfoldable pub map_insert : Bytes → V → Map V → Map V
  map_insert k v [] = (k, v) ∷ []
  map_insert k v ((j, w) ∷ m) = if bytes_eq j k then (k, v) ∷ m else (j, w) ∷ map_insert k v m

  -- `for name, value := range src { dst[name] = value }`
  unfoldable pub map_merge : Map V → Map V → Map V
  map_merge dst [] = dst
  map_merge dst ((k, v) ∷ src) = map_merge (map_insert k v dst) src

  -- No key of the map comes twice.
  abbrev pub KeysDistinct : Map V → Type ℓ
  KeysDistinct [] = Unit
  KeysDistinct ((k, v) ∷ m) = (map_lookup k m ≡ none) × KeysDistinct m
