-- ===== src/Bootstrap/Resolve/Excluded.antt =====
-- A component that is disabled is never selected by the loop of ResolveRecipe.
use pwnbridge.Prelude.{
  ℕ, zero, suc, true, false, List, [], ◌∷◌, some, ◌≡◌, sym, ap, ◌∙◌, inl, inr, Bool-cases,
}
use pwnbridge.Prelude.Result.{ok, Result-cases, >>=-eq-ok, ok-injective}
use pwnbridge.Prelude.Text.{Bytes, bytes_eq, bytes_eq_sound}
use pwnbridge.Config.Names.{one_of}
use pwnbridge.Recipe.Unique.{one_of-cons}
use pwnbridge.Bootstrap.Names.{component_order}
use pwnbridge.Bootstrap.Catalog.{component_of}
use pwnbridge.Bootstrap.Resolve.{Selection, add_dependency, dependencies_round, order_round, rounds}
use pwnbridge.Bootstrap.Resolve.Rounds.{one_component, rounds_again, rounds_last}
use pwnbridge.Bootstrap.Resolve.Closed.{some-ok}

module _ (quote : Bytes → Bytes) (without : List Bytes) (x : Bytes)
    (out_of : one_of x without ≡ true) where
  other : (d : Bytes) → one_of d without ≡ false → bytes_eq x d ≡ false
  other d e = elim (Bool-cases (bytes_eq x d)) [
    | inl same ↦ cc (ap (λ y. one_of y without) (bytes_eq_sound x d same))
    | inr k ↦ k
  ]

  add_dependency_out :
      (id d : Bytes) (r : Selection)
      → one_of d without ≡ false
      → one_of x r.selected ≡ false
      → one_of x (add_dependency id d r).selected ≡ false
  unfolding add_dependency
  add_dependency_out id d r e h = elim (Bool-cases (one_of d r.selected)) [
    | inl k ↦ rw k h
    | inr k ↦ rw (k, one_of-cons x d r.selected, other d e) h
  ]

  dependencies_round_out :
      (id : Bytes) (ds : List Bytes) (r after : Selection)
      → dependencies_round quote without id ds r ≡ ok after
      → one_of x r.selected ≡ false
      → one_of x after.selected ≡ false
  unfolding dependencies_round
  dependencies_round_out id [] r after h k = rw (sym (ok-injective r after h)) k
  dependencies_round_out id (d ∷ ds) r after h k = elim (Bool-cases (one_of d without)) [
    | inl e ↦ cc (rw e at (h))
    | inr e ↦
        dependencies_round_out id ds (add_dependency id d r) after (rw e at (h))
          (add_dependency_out id d r e k)
  ]

  order_round_out :
      (order : List Bytes) (r after : Selection)
      → order_round quote without order r ≡ ok after
      → one_of x r.selected ≡ false
      → one_of x after.selected ≡ false
  unfolding order_round one_component
  order_round_out [] r after h k = rw (sym (ok-injective r after h)) k
  order_round_out (id ∷ order) r after h k =
      let (next, e, rest) =
        >>=-eq-ok (one_component quote without id r) (λ next. order_round quote without order next)
          h in
      order_round_out order next after rest (elim (Bool-cases (one_of id r.selected)) [
        | inl m ↦ dependencies_round_out id (component_of id).dependencies r next (rw m at (e)) k
        | inr m ↦ rw (sym (ok-injective r next (rw m at (e)))) k
      ])

  -- A disabled name that is not selected stays out.
  pub rounds_out :
      (fuel : ℕ) (r out : Selection)
      → rounds quote fuel without r ≡ some (ok out)
      → one_of x r.selected ≡ false
      → one_of x out.selected ≡ false
  unfolding rounds
  rounds_out zero r out h k = cc
  rounds_out (suc fuel) r out h k =
      let start = record r { changed = false } in
      elim (Result-cases (order_round quote without component_order start)) [
        | inr (problem, e) ↦ cc (rw (rounds, e) at (h))
        | inl (next, e) ↦
            let kept = order_round_out component_order start next e k in
            elim (Bool-cases next.changed) [
              | inl c ↦
                  rounds_out fuel next out (sym (rounds_again quote without fuel r next e c) ∙ h)
                    kept
              | inr c ↦
                  let same : next ≡ out =
                    some-ok (sym (rounds_last quote without fuel r next e c) ∙ h) in
                  rw (ap Selection.selected (sym same)) kept
            ]
      ]
