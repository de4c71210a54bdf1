-- ===== src/Bootstrap/Script/Environment.antt =====
-- The entries of an environment, in the order in which a command is given them.
use mathlib.Core.List.{Perm, map}
use mathlib.Core.List.Perm
use mathlib.Core.Path.{subst}
use pwnbridge.Prelude.{false, List, [], ◌∷◌, ◌≡◌, refl, sym, ap, ◌∙◌, none, inl, inr, Bool-cases}
use pwnbridge.Prelude.Map.{KeysDistinct, Map, map_lookup}
use pwnbridge.Prelude.Text.{Bytes, bytes_eq, bytes_eq_refl, bytes_eq-false_comm}
use pwnbridge.Bootstrap.Script.{sorted_keys, environment_value}
use pwnbridge.Recipe.Sort.Sorted.{Ascending, Perm-sort_strings, sort_strings-Ascending}

abbrev pub entry_of : Map Bytes → Bytes → Bytes × Bytes
entry_of environment key = (key, environment_value environment key)

-- The entries of an environment in the order of their keys.
abbrev pub entries_of : Map Bytes → Map Bytes
entries_of environment = map (entry_of environment) (sorted_keys environment)

keys_of-entries :
    (environment : Map Bytes) (keys : List Bytes)
    → map (λ (key, value). key) (map (entry_of environment) keys) ≡ keys
keys_of-entries environment [] = refl
keys_of-entries environment (key ∷ keys) = ap (λ ks. key ∷ ks) (keys_of-entries environment keys)

value_here :
    (key value : Bytes) (environment : Map Bytes)
    → environment_value ((key, value) ∷ environment) key ≡ value
unfolding map_lookup
value_here key value environment = rw (bytes_eq_refl key, environment_value) refl

value_skipped :
    (key value k : Bytes) (environment : Map Bytes)
    → bytes_eq key k ≡ false
    → environment_value ((key, value) ∷ environment) k ≡ environment_value environment k
unfolding map_lookup
value_skipped key value k environment h = rw (h, environment_value) refl

front_eq : (key a b : Bytes) (xs ys : Map Bytes) → a ≡ b → xs ≡ ys → (key, a) ∷ xs ≡ (key, b) ∷ ys
front_eq key a b xs ys h k = rw (h, k) refl

-- An entry in front, whose key is not in the part, does not change the values of the part.
values-cons :
    (key value : Bytes) (environment part : Map Bytes)
    → map_lookup key part ≡ none
    → map (entry_of ((key, value) ∷ environment)) (map (λ (k, v). k) part)
      ≡ map (entry_of environment) (map (λ (k, v). k) part)
unfolding map_lookup
values-cons key value environment [] h = refl
values-cons key value environment ((k, v) ∷ part) h = elim (Bool-cases (bytes_eq k key)) [
  | inl same ↦ cc (rw same at h)
  | inr other ↦
      let later = values-cons key value environment part (rw other at h) in
      front_eq k _ _ _ _ (value_skipped key value k environment (bytes_eq-false_comm k key other))
        later
]

values_of-keys :
    (environment : Map Bytes)
    → KeysDistinct environment
    → map (entry_of environment) (map (λ (k, v). k) environment) ≡ environment
unfolding map_lookup
values_of-keys [] h = refl
values_of-keys ((key, value) ∷ environment) (fresh, h) =
    front_eq key _ _ _ _ (value_here key value environment)
      (values-cons key value environment environment fresh ∙ values_of-keys environment h)

pub entries-Perm :
    (environment : Map Bytes) → KeysDistinct environment → Perm (entries_of environment) environment
entries-Perm environment h =
    let keys = map (λ (k, v). k) environment in
    subst (λ m. Perm (entries_of environment) m) (values_of-keys environment h)
      (Perm.map (entry_of environment) (Perm-sort_strings keys))

pub entries-Ascending :
    (environment : Map Bytes) → Ascending (map (λ (k, v). k) (entries_of environment))
entries-Ascending environment =
    subst Ascending (sym (keys_of-entries environment (sorted_keys environment)))
      (sort_strings-Ascending (map (λ (k, v). k) environment))
