-- ===== src/Bootstrap/Resolve/Resolved.antt =====
-- ResolveRecipe as a whole: it ends, and what the recipe that it gives has.
use pwnbridge.Prelude.{
  and-true, true, false, ◌&&◌, ◌||◌, List, [], ◌∷◌, ◌++◌, Option, none, some, ◌≡◌, refl, sym, ap,
  ◌∙◌, inl, inr, Bool-cases, Option-cases,
}
use pwnbridge.Prelude.Result.{Result, ok, err, Result-cases, ok-injective}
use pwnbridge.Prelude.Text.{Bytes, bytes_eq, bytes_eq_sound}
use pwnbridge.Config.Names.{one_of}
use pwnbridge.Config.Types.{Recipe}
use pwnbridge.Recipe.{normalize, stable_unique, validate_portable}
use pwnbridge.Recipe.Sort.{In}
use pwnbridge.Recipe.Unique.{one_of-stable_unique}
use pwnbridge.Bootstrap.Names.{component_order, mandatory_components}
use pwnbridge.Bootstrap.Catalog.{component_of}
use pwnbridge.Bootstrap.Resolve.{
  Selection, chosen, enough_rounds, requested, resolve_recipe, resolved_recipe, rounds,
}
use pwnbridge.Bootstrap.Resolve.Requested.{requested-Requested}
use pwnbridge.Bootstrap.Resolve.Rounds.{Covered, Ordered, component_order-Covered, rounds_enough}
use pwnbridge.Bootstrap.Resolve.Closed.{rounds-Settled}
use pwnbridge.Bootstrap.Resolve.Chosen.{and_false, one_of-chosen}
use pwnbridge.Bootstrap.Resolve.Excluded.{rounds_out}

-- What a resolved recipe has of the recipe that it was made of, and of what was asked for.
pub record Resolution (value : Recipe) (with_ids without : List Bytes) (full : Recipe)
    : Type 0 where
  closed :
      (id d : Bytes)
      → one_of id full.components ≡ true
      → In d (component_of id).dependencies
      → one_of d full.components ≡ true
  excluded : (x : Bytes) → one_of x without ≡ true → one_of x full.components ≡ false
  mandatory : (x : Bytes) → In x mandatory_components → one_of x full.components ≡ true
  asked :
      (x : Bytes)
      → (one_of x value.components || one_of x with_ids) ≡ true
      → one_of x without ≡ false
      → one_of x full.components ≡ true

module _ (quote : Bytes → Bytes) (value : Recipe) (with_ids without system pip : List Bytes) where
  -- ResolveRecipe ends, whatever it is given: the rounds that it has are enough.
  pub resolve_recipe_ends :
      (out : Result Bytes (Recipe × List Bytes)) × (resolve_recipe quote value with_ids without
          system pip
        ≡ some out)
  unfolding resolve_recipe
  resolve_recipe_ends = elim (Result-cases (requested quote value with_ids without)) [
    | inr (problem, e) ↦ (err problem, rw (resolve_recipe, e) refl)
    | inl ((disabled, selected), e) ↦
        let (out, ends) =
          rounds_enough quote disabled
            record { selected = selected; changed = true; explanations = [] } in
        elim (Result-cases out) [
          | inr (problem, k) ↦ (err problem, rw (resolve_recipe, e, ends, k) refl)
          | inl (r, k) ↦
              (resolved_recipe quote value system pip r, rw (resolve_recipe, e, ends, k) refl)
        ]
  ]

some-eq :
    {a b : Result Bytes (Recipe × List Bytes)}
    → ◌≡◌ {A = Option (Result Bytes (Recipe × List Bytes))} (some a) (some b)
    → a ≡ b
some-eq {a} h = λ i. elim (h i) [ none ↦ a | some x ↦ x ]

mandatory_ordered : (x : Bytes) → In x mandatory_components → one_of x component_order ≡ true
unfolding one_of bytes_eq
mandatory_ordered x (inl e) = rw e refl
mandatory_ordered x (inr (inl e)) = rw e refl
mandatory_ordered x (inr (inr (inl e))) = rw e refl
mandatory_ordered x (inr (inr (inr (inl e)))) = rw e refl
mandatory_ordered x (inr (inr (inr (inr m)))) = absurd m

In-one_of : (x : Bytes) (xs : List Bytes) → one_of x xs ≡ true → In x xs
unfolding one_of
In-one_of x [] h = cc
In-one_of x (y ∷ ys) h = elim (Bool-cases (bytes_eq x y)) [
  | inl e ↦ inl (bytes_eq_sound x y e)
  | inr e ↦ inr (In-one_of x ys (rw e at (h)))
]

Ordered-In : (d : Bytes) (ds : List Bytes) → Ordered ds → In d ds → one_of d component_order ≡ true
Ordered-In d [] o m = absurd m
Ordered-In d (x ∷ ds) (o, os) (inl e) = rw e o
Ordered-In d (x ∷ ds) (o, os) (inr m) = Ordered-In d ds os m

Covered-In :
    (id : Bytes) (ids : List Bytes)
    → Covered ids
    → In id ids
    → Ordered (component_of id).dependencies
Covered-In id [] c m = absurd m
Covered-In id (x ∷ ids) (c, cs) (inl e) = rw e c
Covered-In id (x ∷ ids) (c, cs) (inr m) = Covered-In id ids cs m

module _ (quote : Bytes → Bytes) (value : Recipe) (with_ids without system pip : List Bytes) where
  -- The recipe that is made of a settled selection.
  Resolution-settled :
      (full : Recipe) (disabled selected : List Bytes) (r : Selection)
      → ((x : Bytes) → one_of x full.components ≡ (one_of x component_order && one_of x r.selected))
      → requested quote value with_ids without ≡ ok (disabled, selected)
      → rounds quote enough_rounds disabled
          record { selected = selected; changed = true; explanations = [] }
        ≡ some (ok r)
      → Resolution value with_ids without full
  Resolution-settled full disabled selected r members q e =
      let start : Selection = record { selected = selected; changed = true; explanations = [] } in
      let s = requested-Requested quote value with_ids without disabled selected q in
      let settled = rounds-Settled quote disabled enough_rounds start r e in
      record {
        closed = λ id d m k.
            let (ordered, chosen_id) =
              and-true (one_of id component_order) (one_of id r.selected) (sym (members id) ∙ m) in
            let inside = In-one_of id component_order ordered in
            let d_ordered =
              Ordered-In d (component_of id).dependencies
                (Covered-In id component_order component_order-Covered inside) k in
            members d ∙ rw (d_ordered, (settled.satisfied id inside chosen_id).has d k) refl;
        excluded = λ x m.
            members x
            ∙ ap (λ b. one_of x component_order && b)
                (rounds_out quote disabled x (s.same x ∙ m) enough_rounds start r e (s.apart x m))
            ∙ and_false (one_of x component_order);
        mandatory = λ x m.
            members x ∙ rw (mandatory_ordered x m, settled.keeps x (s.has_mandatory x m)) refl;
        asked = λ x m k.
            let (chosen_x, ordered) = s.has_asked x m k in
            members x ∙ rw (ordered, settled.keeps x chosen_x) refl;
      }

  resolved_recipe-components :
      (full : Recipe) (explanations : List Bytes) (r : Selection)
      → resolved_recipe quote value system pip r ≡ ok (full, explanations)
      → full.components ≡ stable_unique (chosen r.selected component_order)
  unfolding resolved_recipe normalize
  resolved_recipe-components full explanations r h =
      let made : Recipe = normalize record value {
        components = chosen r.selected component_order;
        system_packages = value.system_packages ++ system;
        pip_packages = value.pip_packages ++ pip;
      } in
      elim (Option-cases (validate_portable quote made)) [
        | inr (problem, e) ↦ cc (rw (resolved_recipe, e) at (h))
        | inl e ↦
            let same =
              ok-injective (made, r.explanations) (full, explanations)
                (rw (resolved_recipe, e) at (h)) in
            ap (λ p. Recipe.components (p.0)) (sym same)
      ]

  -- When ResolveRecipe gives a recipe, that recipe has all components that one of its components
  -- depends on, none of the disabled ones, all mandatory ones, and those of the given recipe and those
  -- asked for that are not disabled.
  pub resolve_recipe-Resolution :
      (full : Recipe) (explanations : List Bytes)
      → resolve_recipe quote value with_ids without system pip ≡ some (ok (full, explanations))
      → Resolution value with_ids without full
  unfolding resolve_recipe resolved_recipe normalize
  resolve_recipe-Resolution full explanations h =
      elim (Result-cases (requested quote value with_ids without)) [
        | inr (problem, e) ↦ cc (rw (resolve_recipe, e) at (h))
        | inl ((disabled, selected), e) ↦
            let start : Selection = record {
              selected = selected;
              changed = true;
              explanations = [];
            } in
            let (out, ends) = rounds_enough quote disabled start in
            elim (Result-cases out) [
              | inr (problem, k) ↦ cc (rw (resolve_recipe, e, ends, k) at (h))
              | inl (r, k) ↦
                  let made = some-eq (rw (resolve_recipe, e, ends, k) at (h)) in
                  Resolution-settled full disabled selected r
                    (λ x.
                      ap (one_of x) (resolved_recipe-components full explanations r made)
                      ∙ one_of-stable_unique x (chosen r.selected component_order)
                      ∙ one_of-chosen x r.selected component_order)
                    e (ends ∙ ap some k)
            ]
      ]
