-- ===== src/Bootstrap/Catalog.antt =====
-- internal/bootstrap/catalog.go: lookups in the catalog, the recipes that are built in, and the test on it.
use pwnbridge.Prelude.{
  Bool, false, ◌||◌, List, [], ◌∷◌, ◌++◌, Option, none, some, ◌==◌, if◌then◌else◌, length, ◌≡◌,
  refl,
}
use pwnbridge.Prelude.Map.{Map, map_lookup}
use pwnbridge.Prelude.Text.{Bytes, codes, bytes_eq}
use pwnbridge.Config.Names.{one_of}
use pwnbridge.Config.Types.{Recipe}
use pwnbridge.Config.Validate.{differs, has_key}
use pwnbridge.Recipe.{new_recipe}
use pwnbridge.Recipe.Sort.{sort_strings}
use pwnbridge.Bootstrap.Names.{words, component_order, mandatory_components}
use pwnbridge.Bootstrap.Entries.{Component, catalog}

-- What a lookup of a missing key gives.
abbrev pub no_component : Component
no_component = record {
  id = [];
  name = [];
  mandatory = false;
  dependencies = [];
  tools = [];
  packages = [];
  network = false;
  privileged = false;
  alternative = [];
}

-- `catalog[id]`
unfoldable pub component_of : Bytes → Component
component_of id = elim (map_lookup id catalog) [ none ↦ no_component | some c ↦ c ]

-- `_, ok := catalog[id]`
unfoldable pub is_known : Bytes → Bool
is_known id = has_key catalog id

unfoldable pub catalog_list : List Bytes → List Component
catalog_list [] = []
catalog_list (id ∷ ids) = component_of id ∷ catalog_list ids

unfoldable pub builtin_recipe : Bytes → Option Recipe
builtin_recipe name =
    if bytes_eq name (codes "minimal")
    then some (new_recipe name mandatory_components)
    else if bytes_eq name (codes "pwn")
    then some
        (new_recipe name (words "core gdb python pwntools patching tracing pane-network mosh"))
    else none

-- The first dependency that the catalog does not have.
unfoldable pub unknown_dependency : List Bytes → Option Bytes
unknown_dependency [] = none
unknown_dependency (id ∷ ids) =
    let rest = unknown_dependency ids in if is_known id then rest else some id

unfoldable pub order_problem : List Bytes → List Bytes → Option Bytes
order_problem seen [] = none
order_problem seen (id ∷ ids) =
    let rest = order_problem (id ∷ seen) ids in
    if one_of id seen || differs (component_of id).id id
    then some (codes "invalid component catalog ordering")
    else elim (unknown_dependency (component_of id).dependencies) [
      | some dependency ↦
          some (codes "component " ++ id ++ codes " has unknown dependency " ++ dependency)
      | none ↦ rest
    ]

abbrev spaced : List Bytes → Bytes
spaced [] = []
spaced (x ∷ []) = x
spaced (x ∷ y ∷ xs) = x ++ b' ' ∷ [] ++ spaced (y ∷ xs)

abbrev pub keys_of : Map Component → List Bytes
keys_of [] = []
keys_of ((id, c) ∷ m) = id ∷ keys_of m

-- `none` is nil.
unfoldable pub validate_catalog : Option Bytes
validate_catalog = elim (order_problem [] component_order) [
  | some problem ↦ some problem
  | none ↦
      if length component_order == length catalog
      then none
      else some (
          codes "component order does not cover catalog: ["
          ++ spaced (sort_strings (keys_of catalog))
          ++ codes "]")
]

-- The catalog passes the test that each plan starts with.
pub validate_catalog-none : validate_catalog ≡ none
unfolding validate_catalog order_problem unknown_dependency is_known component_of map_lookup
    bytes_eq one_of
validate_catalog-none = refl
