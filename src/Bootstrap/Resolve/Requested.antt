-- ===== src/Bootstrap/Resolve/Requested.antt =====
-- What the loop of ResolveRecipe starts with.
use pwnbridge.Prelude.{
  Bool, true, false, ◌||◌, List, [], ◌∷◌, ◌≡◌, refl, ap, ◌∙◌, ◌⊎◌, inl, inr, Bool-cases,
}
use pwnbridge.Prelude.Result.{ok, ◌>>=◌, >>=-eq-ok}
use pwnbridge.Prelude.Map.{Map, map_lookup}
use pwnbridge.Prelude.Text.{Bytes, bytes_eq, bytes_eq_refl, bytes_eq_sound}
use pwnbridge.Config.Names.{one_of}
use pwnbridge.Config.Types.{Recipe}
use pwnbridge.Config.Validate.{has_key}
use pwnbridge.Recipe.Sort.{In}
use pwnbridge.Bootstrap.Names.{component_order, mandatory_components}
use pwnbridge.Bootstrap.Entries.{Component, catalog}
use pwnbridge.Bootstrap.Catalog.{component_of, is_known, keys_of}
use pwnbridge.Bootstrap.Resolve.{disable, requested, select_all, select_known}
use pwnbridge.Bootstrap.Resolve.Chosen.{
  Disabled, disable-Disabled, one_of-In, one_of-select_all, one_of-select_known,
}

has_key-keys_of : (m : Map Component) (x : Bytes) → has_key m x ≡ true → one_of x (keys_of m) ≡ true
unfolding map_lookup one_of
has_key-keys_of [] x h = cc
has_key-keys_of ((id, c) ∷ m) x h = elim (Bool-cases (bytes_eq id x)) [
  | inl e ↦ rw (bytes_eq_sound id x e, bytes_eq_refl x) refl
  | inr e ↦ elim (Bool-cases (bytes_eq x id)) [
    | inl e' ↦ rw e' refl
    | inr e' ↦ rw e' (has_key-keys_of m x (rw (has_key, map_lookup, e) at (h)))
  ]
]

-- The catalog has no component but those of the order.
pub is_known-component_order : (x : Bytes) → is_known x ≡ true → one_of x component_order ≡ true
unfolding is_known
is_known-component_order x h = has_key-keys_of catalog x h

is_mandatory : (x : Bytes) → In x mandatory_components → (component_of x).mandatory ≡ true
unfolding component_of map_lookup bytes_eq
is_mandatory x (inl e) = rw e refl
is_mandatory x (inr (inl e)) = rw e refl
is_mandatory x (inr (inr (inl e))) = rw e refl
is_mandatory x (inr (inr (inr (inl e)))) = rw e refl
is_mandatory x (inr (inr (inr (inr m)))) = absurd m

select_known-is_known :
    (quote : Bytes → Bytes) (x : Bytes) (ids s after : List Bytes)
    → select_known quote ids s ≡ ok after
    → one_of x ids ≡ true
    → is_known x ≡ true
unfolding select_known one_of
select_known-is_known quote x [] s after h m = cc
select_known-is_known quote x (id ∷ ids) s after h m = elim (Bool-cases (is_known id)) [
  | inr e ↦ cc (rw e at (h))
  | inl e ↦ elim (Bool-cases (bytes_eq x id)) [
    | inl same ↦ rw (bytes_eq_sound x id same) e
    | inr other ↦ select_known-is_known quote x ids (id ∷ s) after (rw e at (h)) (rw other at (m))
  ]
]

or_false : (a : Bool) → (a || false) ≡ a
or_false true = refl
or_false false = refl

or_last : (a b : Bool) → b ≡ true → (a || b) ≡ true
or_last true b h = refl
or_last false b h = h

or_split : (a b : Bool) → (a || b) ≡ true → (a ≡ true) ⊎ (b ≡ true)
or_split true b h = inl refl
or_split false b h = inr h

module _ (quote : Bytes → Bytes) (value : Recipe) (with_ids without : List Bytes) where
  -- The names that are disabled and selected, when all are known.
  pub record Requested (disabled selected : List Bytes) : Type 0 where
    pub same : (x : Bytes) → one_of x disabled ≡ one_of x without
    pub apart : (x : Bytes) → one_of x without ≡ true → one_of x selected ≡ false
    pub has_mandatory : (x : Bytes) → In x mandatory_components → one_of x selected ≡ true
    pub has_asked :
        (x : Bytes)
        → (one_of x value.components || one_of x with_ids) ≡ true
        → one_of x without ≡ false
        → (one_of x selected ≡ true) × (one_of x component_order ≡ true)

  kept_mandatory :
      (all_of disabled selected : List Bytes) (x : Bytes)
      → Disabled quote without [] all_of disabled selected
      → In x mandatory_components
      → one_of x without ≡ false
  kept_mandatory all_of disabled selected x d m = elim (Bool-cases (one_of x without)) [
    | inr e ↦ e
    | inl e ↦ cc (d.optional x e, is_mandatory x m)
  ]

  module _ (first all_of disabled selected : List Bytes)
      (e : select_known quote value.components [] ≡ ok first)
      (e' : select_known quote with_ids (select_all mandatory_components first) ≡ ok all_of)
      (d : Disabled quote without [] all_of disabled selected) where
    seeds :
        (x : Bytes)
        → one_of x all_of
          ≡ (one_of x with_ids || (one_of x mandatory_components || one_of x value.components))
    unfolding one_of
    seeds x =
        one_of-select_known quote x with_ids (select_all mandatory_components first) all_of e'
        ∙ ap (λ b. one_of x with_ids || b)
            (one_of-select_all x mandatory_components first
              ∙ ap (λ b. one_of x mandatory_components || b)
                  (one_of-select_known quote x value.components [] first e
                    ∙ or_false (one_of x value.components)))

    stays :
        (x : Bytes) → one_of x all_of ≡ true → one_of x without ≡ false → one_of x selected ≡ true
    stays x m k = d.left x ∙ rw (k, m) refl

    asked_seeds :
        (x : Bytes)
        → (one_of x value.components || one_of x with_ids) ≡ true
        → (one_of x all_of ≡ true) × (one_of x component_order ≡ true)
    asked_seeds x m = elim (or_split (one_of x value.components) (one_of x with_ids) m) [
      | inl k ↦ (
        seeds x
            ∙ or_last (one_of x with_ids)
                (one_of x mandatory_components || one_of x value.components)
                (or_last (one_of x mandatory_components) (one_of x value.components) k),
        is_known-component_order x (select_known-is_known quote x value.components [] first e k),
      )
      | inr k ↦ (
        seeds x ∙ rw k refl,
        is_known-component_order x (
            select_known-is_known quote x with_ids (select_all mandatory_components first) all_of e'
              k),
      )
    ]

    Requested-parts : Requested disabled selected
    unfolding one_of
    Requested-parts = record {
      same = λ x. d.disabled x ∙ or_false (one_of x without);
      apart = λ x m. d.left x ∙ rw m refl;
      has_mandatory = λ x m.
          stays x
            (seeds x
              ∙ or_last (one_of x with_ids)
                  (one_of x mandatory_components || one_of x value.components)
                  (rw (one_of-In x mandatory_components m) refl))
            (kept_mandatory all_of disabled selected x d m);
      has_asked = λ x m k. let (s, o) = asked_seeds x m in (stays x s k, o);
    }

  pub requested-Requested :
      (disabled selected : List Bytes)
      → requested quote value with_ids without ≡ ok (disabled, selected)
      → Requested disabled selected
  unfolding requested
  requested-Requested disabled selected h =
      let (first, e, h') =
        >>=-eq-ok (select_known quote value.components [])
          (λ s.
            select_known quote with_ids (select_all mandatory_components s)
            >>= (λ all_of. disable quote without [] all_of))
          h in
      let (all_of, e', h'') =
        >>=-eq-ok (select_known quote with_ids (select_all mandatory_components first))
          (λ all_of. disable quote without [] all_of) h' in
      Requested-parts first all_of disabled selected e e'
        (disable-Disabled quote without [] all_of disabled selected h'')
