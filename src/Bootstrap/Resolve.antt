-- ===== src/Bootstrap/Resolve.antt =====
-- internal/bootstrap/catalog.go: the components that a recipe comes to, with all that they depend on.
-- A map of the selected names is the list of them.
use pwnbridge.Prelude.{
  ℕ, zero, suc, Bool, true, false, not, ◌||◌, List, [], ◌∷◌, ◌++◌, Option, none, some,
  if◌then◌else◌,
}
use pwnbridge.Prelude.Result.{Result, ok, err, ◌>>=◌}
use pwnbridge.Prelude.Text.{Bytes, codes, bytes_eq}
use pwnbridge.Config.Names.{one_of, is_empty, split}
use pwnbridge.Config.Types.{Recipe}
use pwnbridge.Recipe.{normalize, validate_portable}
use pwnbridge.Recipe.Space.{trim_space}
use pwnbridge.Bootstrap.Names.{component_order, mandatory_components}
use pwnbridge.Bootstrap.Entries.{Component}
use pwnbridge.Bootstrap.Catalog.{component_of, is_known}
pub mod Grows
pub mod Rounds
pub mod Closed
pub mod Chosen
pub mod Requested
pub mod Excluded
pub mod Resolved

-- `delete(selected, id)`
unfoldable pub deselect : Bytes → List Bytes → List Bytes
deselect id [] = []
deselect id (x ∷ selected) =
    let rest = deselect id selected in if bytes_eq id x then rest else x ∷ rest

unfoldable pub chosen : List Bytes → List Bytes → List Bytes
chosen selected [] = []
chosen selected (id ∷ order) =
    let rest = chosen selected order in if one_of id selected then id ∷ rest else rest

-- `selected[id] = true`, for all of a list.
unfoldable pub select_all : List Bytes → List Bytes → List Bytes
select_all [] selected = selected
select_all (id ∷ ids) selected = select_all ids (id ∷ selected)

-- The state of the loop that selects dependencies.
pub record Selection : Type 0 where
  pub selected : List Bytes
  pub changed : Bool
  pub explanations : List Bytes

unfoldable pub add_dependency : Bytes → Bytes → Selection → Selection
add_dependency id dependency r = if one_of dependency r.selected then r else record {
  selected = dependency ∷ r.selected;
  changed = true;
  explanations =
      r.explanations
      ++ (codes "selected " ++ dependency ++ codes " because " ++ id ++ codes " depends on it")
        ∷ [];
}

unfoldable pub join_comma : List Bytes → Bytes
join_comma [] = []
join_comma (x ∷ []) = x
join_comma (x ∷ y ∷ xs) = x ++ codes ", " ++ join_comma (y ∷ xs)

-- Each round but the last selects one of the 11 components of the order.
abbrev pub enough_rounds : ℕ
enough_rounds = 12

module _ (quote : Bytes → Bytes) where
  unfoldable pub unknown_component : Bytes → Bytes
  unknown_component id = codes "unknown bootstrap component " ++ quote id

  unfoldable pub select_known : List Bytes → List Bytes → Result Bytes (List Bytes)
  select_known [] selected = ok selected
  select_known (id ∷ ids) selected =
      let rest = select_known ids (id ∷ selected) in
      if is_known id then rest else err (unknown_component id)

  -- The names that are disabled, and those that stay selected.
  unfoldable pub disable :
      List Bytes → List Bytes → List Bytes → Result Bytes (List Bytes × List Bytes)
  disable [] without selected = ok (without, selected)
  disable (id ∷ ids) without selected =
      let rest = disable ids (id ∷ without) (deselect id selected) in
      if not (is_known id)
      then err (unknown_component id)
      else if (component_of id).mandatory
      then err (codes "mandatory component " ++ quote id ++ codes " cannot be disabled")
      else rest

  -- The loop on the dependencies of a component.
  unfoldable pub dependencies_round :
      List Bytes → Bytes → List Bytes → Selection → Result Bytes Selection
  dependencies_round without id [] r = ok r
  dependencies_round without id (dependency ∷ dependencies) r =
      let rest = dependencies_round without id dependencies (add_dependency id dependency r) in
      if one_of dependency without
      then err (
          codes "component "
          ++ quote id
          ++ codes " requires explicitly disabled "
          ++ quote dependency)
      else rest

  -- The loop on the components, in their order.
  unfoldable pub order_round : List Bytes → List Bytes → Selection → Result Bytes Selection
  order_round without [] r = ok r
  order_round without (id ∷ order) r =
      (if one_of id r.selected
        then dependencies_round without id (component_of id).dependencies r
        else ok r)
      >>= (λ next. order_round without order next)

  -- `for changed`, in at most so many rounds; `none` when these are not enough.
  unfoldable pub rounds : ℕ → List Bytes → Selection → Option (Result Bytes Selection)
  rounds zero without r = none
  rounds (suc fuel) without r =
      elim (order_round without component_order (record r { changed = false })) [
        | err problem ↦ some (err problem)
        | ok next ↦
            let again = rounds fuel without next in if next.changed then again else some (ok next)
      ]

  -- What is selected when the dependencies are taken: the names of the recipe, the mandatory ones and
  -- those asked for, without the disabled ones.
  unfoldable pub requested :
      Recipe → List Bytes → List Bytes → Result Bytes (List Bytes × List Bytes)
  requested value with_ids without = select_known value.components [] >>= (λ selected.
      select_known with_ids (select_all mandatory_components selected)
      >>= (λ all_of. disable without [] all_of))

  unfoldable pub resolved_recipe :
      Recipe → List Bytes → List Bytes → Selection → Result Bytes (Recipe × List Bytes)
  resolved_recipe value system_packages pip_packages r =
      let full = normalize record value {
        components = chosen r.selected component_order;
        system_packages = value.system_packages ++ system_packages;
        pip_packages = value.pip_packages ++ pip_packages;
      } in
      elim (validate_portable quote full) [
        | none ↦ ok (full, r.explanations)
        | some problem ↦ err problem
      ]

  unfoldable pub resolve_recipe :
      Recipe
      → List Bytes
      → List Bytes
      → List Bytes
      → List Bytes
      → Option (Result Bytes (Recipe × List Bytes))
  resolve_recipe value with_ids without system_packages pip_packages =
      elim (requested value with_ids without) [
        | err problem ↦ some (err problem)
        | ok (disabled, selected) ↦
            elim (rounds enough_rounds disabled
              record { selected = selected; changed = true; explanations = [] }) [
                | none ↦ none
                | some (err problem) ↦ some (err problem)
                | some (ok r) ↦ some (resolved_recipe value system_packages pip_packages r)
              ]
      ]

  -- `none` is a loop that has not ended, and `some none` is nil.
  unfoldable pub validate_recipe : Recipe → Option (Option Bytes)
  validate_recipe value = elim (validate_portable quote value) [
    | some problem ↦ some (some problem)
    | none ↦ elim (resolve_recipe value [] [] [] []) [
      | none ↦ none
      | some (err problem) ↦ some (some problem)
      | some (ok _) ↦ some none
    ]
  ]

  -- The names in the parts of one value.
  unfoldable pub parse_parts : List Bytes → Result Bytes (List Bytes)
  parse_parts [] = ok []
  parse_parts (part ∷ parts) =
      let id = trim_space part in
      let rest = parse_parts parts in
      if is_empty id
      then rest
      else if not (is_known id)
      then err (
          unknown_component id ++ codes " (choose from " ++ join_comma component_order ++ codes ")")
      else rest >>= (λ ids. ok (id ∷ ids))

  unfoldable pub parse_component_list : List Bytes → Result Bytes (List Bytes)
  parse_component_list [] = ok []
  parse_component_list (value ∷ values) =
      parse_parts (split b',' value)
      >>= (λ ids. parse_component_list values >>= (λ others. ok (ids ++ others)))
