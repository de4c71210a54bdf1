-- ===== src/Bootstrap/Resolve/Closed.antt =====
-- What ResolveRecipe comes to: a selection that has all that it depends on, and nothing disabled.
use pwnbridge.Prelude.{
  ℕ, zero, suc, true, false, List, [], ◌∷◌, Option, none, some, ◌≡◌, sym, ap, ◌∙◌, inl, inr,
  Bool-cases,
}
use pwnbridge.Prelude.Result.{Result, ok, err, Result-cases, >>=-eq-ok}
use pwnbridge.Prelude.Text.{Bytes}
use pwnbridge.Config.Names.{one_of}
use pwnbridge.Recipe.Sort.{In}
use pwnbridge.Bootstrap.Names.{component_order}
use pwnbridge.Bootstrap.Catalog.{component_of}
use pwnbridge.Bootstrap.Resolve.{Selection, add_dependency, dependencies_round, order_round, rounds}
use pwnbridge.Bootstrap.Resolve.Grows.{add_dependency-Grows}
use pwnbridge.Bootstrap.Resolve.Rounds.{
  Covered, Ordered, component_order-Covered, dependencies_round-Grows, one_component,
  one_component-Grows, order_round-Grows, rounds_again, rounds_last,
}

-- All that this component depends on is selected, and none of it is disabled.
pub record Satisfied (without selected : List Bytes) (id : Bytes) : Type 0 where
  pub has : (d : Bytes) → In d (component_of id).dependencies → one_of d selected ≡ true
  pub allowed : (d : Bytes) → In d (component_of id).dependencies → one_of d without ≡ false

pub some-ok :
    {r out : Selection}
    → ◌≡◌ {A = Option (Result Bytes Selection)} (some (ok r)) (some (ok out))
    → r ≡ out
some-ok {r} h = λ i. elim (h i) [ none ↦ r | some (err problem) ↦ r | some (ok x) ↦ x ]

module _ (quote : Bytes → Bytes) (without : List Bytes) where
  added :
      (id d : Bytes) (r : Selection)
      → (add_dependency id d r).changed ≡ false
      → one_of d r.selected ≡ true
  unfolding add_dependency
  added id d r h = elim (Bool-cases (one_of d r.selected)) [ inl e ↦ e | inr e ↦ cc (rw e at (h)) ]

  dependencies_round-In :
      (id : Bytes) (ds : List Bytes) (r after : Selection)
      → Ordered ds
      → dependencies_round quote without id ds r ≡ ok after
      → after.changed ≡ false
      → (d : Bytes) → In d ds
      → (one_of d r.selected ≡ true) × (one_of d without ≡ false)
  unfolding dependencies_round
  dependencies_round-In id [] r after o h c d m = absurd m
  dependencies_round-In id (x ∷ ds) r after (o, os) h c d m = elim (Bool-cases (one_of x without)) [
    | inl e ↦ cc (rw e at (h))
    | inr e ↦
        let next = add_dependency id x r in
        let rest = rw e at (h) in
        let same = (dependencies_round-Grows quote without id ds next after os rest).still c in
        let first : one_of x r.selected ≡ true =
          added id x r (ap Selection.changed (sym same) ∙ c) in
        let unmoved : next ≡ r =
          (add_dependency-Grows id x r o).still (ap Selection.changed (sym same) ∙ c) in
        elim m [
          | inl eq ↦ rw eq (first, e)
          | inr k ↦ rw (sym unmoved) (dependencies_round-In id ds next after os rest c d k)
        ]
  ]

  one_component-Satisfied :
      (id : Bytes) (r after : Selection)
      → Ordered (component_of id).dependencies
      → one_component quote without id r ≡ ok after
      → after.changed ≡ false
      → one_of id r.selected ≡ true
      → Satisfied without r.selected id
  unfolding one_component
  one_component-Satisfied id r after o h c m =
      let ran = rw m at (h) in
      let all_of = dependencies_round-In id (component_of id).dependencies r after o ran c in
      record { has = λ d k. (all_of d k).0; allowed = λ d k. (all_of d k).1 }

  order_round-Satisfied :
      (order : List Bytes) (r after : Selection)
      → Covered order
      → order_round quote without order r ≡ ok after
      → after.changed ≡ false
      → (id : Bytes) → In id order
      → one_of id r.selected ≡ true
      → Satisfied without r.selected id
  unfolding order_round one_component
  order_round-Satisfied [] r after o h c id m s = absurd m
  order_round-Satisfied (x ∷ order) r after (o, os) h c id m s =
      let (next, e, k) =
        >>=-eq-ok (one_component quote without x r) (λ next. order_round quote without order next)
          h in
      let same : after ≡ next = (order_round-Grows quote without order next after os k).still c in
      let quiet : next.changed ≡ false = ap Selection.changed (sym same) ∙ c in
      let unmoved : next ≡ r = (one_component-Grows quote without x r next o e).still quiet in
      elim m [
        | inl eq ↦ rw eq (one_component-Satisfied x r next o e quiet (rw eq at (s)))
        | inr m' ↦ rw (ap Selection.selected (sym unmoved)) (
            order_round-Satisfied order next after os k c id m'
              (ap (λ t. one_of id (Selection.selected t)) unmoved ∙ s))
      ]

  -- A selection that a loop has ended with.
  pub record Settled (r out : Selection) : Type 0 where
    pub keeps : (x : Bytes) → one_of x r.selected ≡ true → one_of x out.selected ≡ true
    pub satisfied :
        (id : Bytes)
        → In id component_order
        → one_of id out.selected ≡ true
        → Satisfied without out.selected id

  pub rounds-Settled :
      (fuel : ℕ) (r out : Selection) → rounds quote fuel without r ≡ some (ok out) → Settled r out
  unfolding rounds
  rounds-Settled zero r out h = cc
  rounds-Settled (suc fuel) r out h =
      let start = record r { changed = false } in
      elim (Result-cases (order_round quote without component_order start)) [
        | inr (problem, e) ↦ cc (rw (rounds, e) at (h))
        | inl (next, e) ↦
            let grows =
              order_round-Grows quote without component_order start next component_order-Covered
                e in
            elim (Bool-cases next.changed) [
              | inl c ↦
                  let later =
                    rounds-Settled fuel next out
                      (sym (rounds_again quote without fuel r next e c) ∙ h) in
                  record {
                    keeps = λ x m. later.keeps x (grows.keeps x m);
                    satisfied = later.satisfied;
                  }
              | inr c ↦
                  let same : next ≡ out =
                    some-ok (sym (rounds_last quote without fuel r next e c) ∙ h) in
                  let unmoved : next.selected ≡ r.selected =
                    ap Selection.selected (grows.still c) in
                  rw (sym same) (record {
                    keeps = λ x m. grows.keeps x m;
                    satisfied = λ id m s. rw unmoved (
                        order_round-Satisfied component_order start next component_order-Covered e c
                          id m (rw (sym unmoved) s));
                  })
            ]
      ]
