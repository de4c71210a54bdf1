-- ===== src/Recipe.antt =====
-- internal/bootstrap/recipe/recipe.go: the portable part of a bootstrap plan. The TOML codec and the
-- quoting of `%q` are arguments.
use pwnbridge.Prelude.{
  ℕ, zero, suc, ◌-◌, Bool, true, false, not, ◌&&◌, ◌||◌, List, [], ◌∷◌, ◌++◌, Option, none, some,
  ltb, leb, ◌==◌, if◌then◌else◌, length, drop, take,
}
use pwnbridge.Prelude.Int.{ℤ, pos}
use pwnbridge.Prelude.Result.{Result, ok, err}
use pwnbridge.Prelude.Text.{Bytes, codes, bytes_eq, has_prefix, index, index_byte}
use pwnbridge.Config.Types.{Recipe}
use pwnbridge.Config.Layers.{ℤ_eq}
use pwnbridge.Config.Names.{is_lower, is_upper, is_decimal, all, any, is_empty, one_of, split}
use pwnbridge.Recipe.Sort.{Check, checks_of, complaints, joined}
use pwnbridge.Recipe.Space.{trim_space, is_control, cut}
pub mod Sort
pub mod Space
pub mod Unique
mod Tests

abbrev pub recipe_schema : ℤ
recipe_schema = pos 1

abbrev pub max_recipe_bytes : ℕ
max_recipe_bytes = 1_048_576

unfoldable pub new_recipe : Bytes → List Bytes → Recipe
new_recipe name components = record {
  schema = recipe_schema;
  name = name;
  components = components;
  system_packages = [];
  pip_packages = [];
}

-- The values in their order, each one once: `seen` holds those that came before.
unfoldable pub unique_from : List Bytes → List Bytes → List Bytes
unique_from seen [] = []
unique_from seen (value ∷ values) =
    let skipped = unique_from seen values in
    let kept = unique_from (value ∷ seen) values in
    if one_of value seen then skipped else value ∷ kept

unfoldable pub stable_unique : List Bytes → List Bytes
stable_unique values = unique_from [] values

unfoldable pub normalize : Recipe → Recipe
normalize value = record {
  schema = recipe_schema;
  name = value.name;
  components = stable_unique value.components;
  system_packages = stable_unique value.system_packages;
  pip_packages = stable_unique value.pip_packages;
}

abbrev pub is_alnum : ℕ → Bool
is_alnum c = is_lower c || is_upper c || is_decimal c

unfoldable pub recipe_name_byte : ℕ → Bool
recipe_name_byte c = is_alnum c || c == b'.' || c == b'_' || c == b'-'

unfoldable pub valid_name : Bytes → Bool
valid_name name = if is_empty name || ltb 64 (length name) then false else all recipe_name_byte name

abbrev pub is_one : ℕ → Bytes → Bool
is_one c s = any (λ b. c == b) s

abbrev pub contains : Bytes → Bytes → Bool
contains s p = elim (index s p) [ none ↦ false | some i ↦ true ]

unfoldable pub system_package_byte : ℕ → Bool
system_package_byte c = is_alnum c || is_one c (codes "+._:@/-")

unfoldable pub valid_system_package : Bytes → Bool
valid_system_package name =
    if is_empty name
      || ltb 192 (length name)
      || has_prefix name (codes "-")
      || contains name (codes "..")
    then false
    else all system_package_byte name

unfoldable pub pip_name_byte : ℕ → Bool
pip_name_byte c = is_alnum c || c == b'-' || c == b'_' || c == b'.'

-- `i := 0; for i < len(s) && isPipNameByte(s[i]) { i++ }`
unfoldable pub pip_name_length : Bytes → ℕ
pip_name_length [] = 0
pip_name_length (c ∷ s) = let n = suc (pip_name_length s) in if pip_name_byte c then n else 0

-- The byte at an index passes a test.
abbrev pub byte_at : (ℕ → Bool) → Bytes → ℕ → Bool
byte_at p [] i = false
byte_at p (c ∷ s) zero = p c
byte_at p (c ∷ s) (suc i) = byte_at p s i

unfoldable pub valid_extra : Bytes → Bool
valid_extra extra =
    not (is_empty extra)
    && all pip_name_byte extra
    && byte_at is_alnum extra 0
    && byte_at is_alnum extra (length extra - 1)

-- What follows the name: `none` when the extras are malformed, and else the rest behind them.
unfoldable pub skip_extras : Bytes → Option Bytes
skip_extras [] = some []
skip_extras (c ∷ s) =
    if c == b'['
    then elim (index_byte (c ∷ s) b']') [
      | none ↦ none
      | some close ↦
          if leb close 1
          then none
          else if all (λ extra. valid_extra (trim_space extra)) (split b',' (take (close - 1) s))
          then some (drop close s)
          else none
    ]
    else some (c ∷ s)

unfoldable pub specifier_byte : ℕ → Bool
specifier_byte c = is_alnum c || is_one c (codes "<>=!~.,*+_-() ")

unfoldable pub valid_specifier : Bytes → Bool
valid_specifier rest =
    is_empty rest || (byte_at (λ c. is_one c (codes "<>=!~(")) rest 0 && all specifier_byte rest)

unfoldable pub marker_byte : ℕ → Bool
marker_byte c = is_alnum c || is_one c (codes " _.'\"<>=!()-")

abbrev pub valid_marker : Option Bytes → Bool
valid_marker none = true
valid_marker (some marker) = not (is_empty (trim_space marker)) && all marker_byte marker

unfoldable pub valid_pip_name : Bytes → Bool
valid_pip_name requirement =
    not (pip_name_length requirement == 0)
    && byte_at is_alnum requirement 0
    && byte_at is_alnum requirement (pip_name_length requirement - 1)

unfoldable pub valid_pip_requirement : Bytes → Bool
valid_pip_requirement value =
    let (before, marker) = cut b';' value in
    let requirement = trim_space before in
    if is_empty value
      || not (bytes_eq value (trim_space value))
      || ltb 512 (length value)
      || has_prefix value (codes "-")
      || contains value (codes "://")
      || any (λ c. c == b'@' || c == 0 || c == b'\r' || c == b'\n') value
      || is_control value
    then false
    else if not (valid_pip_name requirement)
    then false
    else elim (skip_extras (drop (pip_name_length requirement) requirement)) [
      | none ↦ false
      | some rest ↦ valid_specifier (trim_space rest) && valid_marker marker
    ]

abbrev pub known_components : List Bytes
known_components =
    codes "core"
    ∷ codes "gdb"
    ∷ codes "python"
    ∷ codes "pwntools"
    ∷ codes "patching"
    ∷ codes "tracing"
    ∷ codes "pane-network"
    ∷ codes "mosh"
    ∷ codes "pwndbg"
    ∷ codes "podman"
    ∷ codes "docker"
    ∷ []

module _ (quote : Bytes → Bytes) where
  unfoldable pub recipe_checks : Recipe → List Check
  recipe_checks value =
      (not (ℤ_eq value.schema recipe_schema), codes "recipe schema must be 1")
        ∷ (
          not (valid_name value.name),
          codes "recipe name must contain only letters, digits, '.', '_', or '-'",
        )
        ∷ (length value.components == 0, codes "recipe must select at least one component")
        ∷ (ltb 32 (length value.components), codes "recipe selects too many components")
        ∷ (ltb 256 (length value.system_packages), codes "recipe has too many system packages")
        ∷ (ltb 256 (length value.pip_packages), codes "recipe has too many pip requirements")
        ∷ []
      ++ checks_of
          (λ c.
            (not (one_of c known_components), codes "unknown bootstrap component " ++ quote c) ∷ [])
          value.components
      ++ checks_of
          (λ n. (not (valid_system_package n), codes "invalid system package " ++ quote n) ∷ [])
          value.system_packages
      ++ checks_of
          (λ r. (not (valid_pip_requirement r), codes "invalid pip requirement " ++ quote r) ∷ [])
          value.pip_packages

  -- `none` is nil, and `some` an error with its text.
  unfoldable pub validate_portable : Recipe → Option Bytes
  validate_portable value = joined (complaints (recipe_checks value))

  unfoldable pub checked : Recipe → Result Bytes Recipe
  checked value = elim (validate_portable value) [
    | none ↦ ok (normalize value)
    | some problem ↦ err problem
  ]

  module _ (toml_decode : Bytes → Result Bytes Recipe) where
    unfoldable pub parse : Bytes → Result Bytes Recipe
    parse data_bytes =
        if ltb max_recipe_bytes (length data_bytes)
        then err (codes "bootstrap recipe exceeds 1048576 bytes")
        else elim (toml_decode data_bytes) [
          | err problem ↦ err (codes "decode bootstrap recipe: " ++ problem)
          | ok value ↦ checked value
        ]

  module _ (toml_encode : Recipe → Result Bytes Bytes) where
    unfoldable pub marshal : Recipe → Result Bytes Bytes
    marshal value = elim (validate_portable (normalize value)) [
      | some problem ↦ err problem
      | none ↦ elim (toml_encode (normalize value)) [
        | ok text ↦ ok text
        | err problem ↦ err (codes "encode bootstrap recipe: " ++ problem)
      ]
    ]
