-- ===== src/Bootstrap/Resolve/Rounds.antt =====
-- The loop of ResolveRecipe: each round selects more, or is the last.
use pwnbridge.Prelude.{
  ℕ, zero, suc, ◌<◌, true, false, List, [], ◌∷◌, some, if◌then◌else◌, ◌≡◌, refl, ◌∙◌, arith, inl,
  inr, Bool-cases, if-true, if-false,
}
use pwnbridge.Prelude.Result.{Result, ok, err, Result-cases, >>=-eq-ok, ok-injective}
use pwnbridge.Prelude.Map.{map_lookup}
use pwnbridge.Prelude.Text.{Bytes, bytes_eq}
use pwnbridge.Config.Names.{one_of}
use pwnbridge.Bootstrap.Names.{component_order}
use pwnbridge.Bootstrap.Catalog.{component_of}
use pwnbridge.Bootstrap.Resolve.{
  Selection, add_dependency, dependencies_round, enough_rounds, order_round, rounds,
}
use pwnbridge.Bootstrap.Resolve.Grows.{
  Grows, Grows-refl, Grows-trans, add_dependency-Grows, missing, missing_le,
}

-- All names of a list are components of the order.
abbrev pub Ordered : List Bytes → Type 0
Ordered [] = Unit
Ordered (d ∷ ds) = (one_of d component_order ≡ true) × Ordered ds

-- The dependencies of all names of a list are components of the order.
abbrev pub Covered : List Bytes → Type 0
Covered [] = Unit
Covered (id ∷ ids) = Ordered (component_of id).dependencies × Covered ids

module _ (quote : Bytes → Bytes) (without : List Bytes) where
  pub dependencies_round-Grows :
      (id : Bytes) (ds : List Bytes) (r after : Selection)
      → Ordered ds
      → dependencies_round quote without id ds r ≡ ok after
      → Grows r after
  unfolding dependencies_round
  dependencies_round-Grows id [] r after o h = rw (ok-injective r after h) (Grows-refl after)
  dependencies_round-Grows id (d ∷ ds) r after (o, os) h = elim (Bool-cases (one_of d without)) [
    | inl e ↦ cc (rw e at (h))
    | inr e ↦
        Grows-trans r (add_dependency id d r) after (add_dependency-Grows id d r o)
          (dependencies_round-Grows id ds (add_dependency id d r) after os (rw e at (h)))
  ]

  -- The step of a round for one component.
  unfoldable pub one_component : Bytes → Selection → Result Bytes Selection
  one_component id r =
      if one_of id r.selected
      then dependencies_round quote without id (component_of id).dependencies r
      else ok r

  pub one_component-Grows :
      (id : Bytes) (r after : Selection)
      → Ordered (component_of id).dependencies
      → one_component id r ≡ ok after
      → Grows r after
  unfolding one_component
  one_component-Grows id r after o h = elim (Bool-cases (one_of id r.selected)) [
    | inl e ↦ dependencies_round-Grows id (component_of id).dependencies r after o (rw e at (h))
    | inr e ↦ rw (ok-injective r after (rw e at (h))) (Grows-refl after)
  ]

  pub order_round-Grows :
      (order : List Bytes) (r after : Selection)
      → Covered order
      → order_round quote without order r ≡ ok after
      → Grows r after
  unfolding order_round one_component
  order_round-Grows [] r after c h = rw (ok-injective r after h) (Grows-refl after)
  order_round-Grows (id ∷ order) r after (o, c) h =
      let (next, e, k) =
        >>=-eq-ok (one_component id r) (λ next. order_round quote without order next) h in
      Grows-trans r next after (one_component-Grows id r next o e)
        (order_round-Grows order next after c k)

-- The dependencies in the catalog are components of the order.
pub component_order-Covered : Covered component_order
unfolding component_of map_lookup one_of bytes_eq
component_order-Covered =
    let one : Unit = tt in
    (
      one,
      (
        (refl, one),
        (
          (refl, one),
          (
            (refl, (refl, one)),
            ((refl, one), (one, (one, (one, ((refl, (refl, one)), (one, (one, one))))))),
          ),
        ),
      ),
    )

module _ (quote : Bytes → Bytes) (without : List Bytes) where
  -- A round that has changed the selection, and one that has not.
  pub rounds_again :
      (fuel : ℕ) (r next : Selection)
      → order_round quote without component_order (record r { changed = false }) ≡ ok next
      → next.changed ≡ true
      → rounds quote (suc fuel) without r ≡ rounds quote fuel without next
  unfolding rounds
  rounds_again fuel r next e c =
      rw (rounds, e) (if-true next.changed (rounds quote fuel without next) (some (ok next)) c)

  pub rounds_last :
      (fuel : ℕ) (r next : Selection)
      → order_round quote without component_order (record r { changed = false }) ≡ ok next
      → next.changed ≡ false
      → rounds quote (suc fuel) without r ≡ some (ok next)
  unfolding rounds
  rounds_last fuel r next e c =
      rw (rounds, e) (if-false next.changed (rounds quote fuel without next) (some (ok next)) c)

  rounds_ends :
      (fuel : ℕ) (r : Selection)
      → missing component_order r.selected < fuel
      → (out : Result Bytes Selection) × (rounds quote fuel without r ≡ some out)
  unfolding rounds
  rounds_ends zero r h = absurd (omega arith)
  rounds_ends (suc fuel) r h =
      let start = record r { changed = false } in
      elim (Result-cases (order_round quote without component_order start)) [
        | inr (problem, e) ↦ (err problem, rw (rounds, e) refl)
        | inl (next, e) ↦
            let grows =
              order_round-Grows quote without component_order start next component_order-Covered
                e in
            elim (Bool-cases next.changed) [
              | inr c ↦ (ok next, rounds_last fuel r next e c)
              | inl c ↦ elim (grows.progress c) [
                | inl same ↦ cc
                | inr lt ↦
                    let (out, ends) = rounds_ends fuel next (omega (arith, lt, h)) in
                    (out, rounds_again fuel r next e c ∙ ends)
              ]
            ]
      ]

  -- The loop of ResolveRecipe ends within as many rounds as it is given, whatever is selected and
  -- whatever is disabled: it gives a selection, or an error.
  pub rounds_enough :
      (r : Selection)
      → (out : Result Bytes Selection) × (rounds quote enough_rounds without r ≡ some out)
  rounds_enough r =
      rounds_ends enough_rounds r (omega (arith, missing_le component_order r.selected))
