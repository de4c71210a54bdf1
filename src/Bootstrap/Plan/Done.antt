-- ===== src/Bootstrap/Plan/Done.antt =====
-- BuildPlan ends, and has nothing to do on a host that is healthy.
use pwnbridge.Prelude.{
  Bool, true, false, ◌||◌, ◌&&◌, not, List, [], ◌∷◌, some, ◌≡◌, refl, ap, ◌∙◌, Bool-cases,
  Option-cases, inl, inr, length, ◌==◌, if-false,
}
use pwnbridge.Prelude.Result.{Result, ok, err, Result-cases}
use pwnbridge.Prelude.Text.{Bytes, bytes_eq, codes}
use pwnbridge.Config.Names.{one_of}
use pwnbridge.Config.Types.{Recipe}
use pwnbridge.Recipe.{stable_unique, unique_from, validate_portable}
use pwnbridge.Bootstrap.Names.{
  component_order, component_docker, component_pwndbg, component_pwntools,
}
use pwnbridge.Bootstrap.Catalog.{component_of, validate_catalog-none}
use pwnbridge.Bootstrap.Resolve.{chosen, validate_recipe}
use pwnbridge.Bootstrap.Resolve.Resolved.{resolve_recipe_ends}
use pwnbridge.Bootstrap.Inventory.{Inventory}
use pwnbridge.Bootstrap.Steps.{filter_user_steps}
use pwnbridge.Bootstrap.Plan.{Action, PlanOptions, ResolvedPlan, component_healthy, is_musl, skip}
use pwnbridge.Bootstrap.Plan.Decide.{Outcome, decide, quiet_outcome}
use pwnbridge.Bootstrap.Plan.Actions.{component_loop-actions, decided, staged_plan-actions}
use pwnbridge.Bootstrap.Plan.Build.{
  add_outcome, build_plan, component_loop, docker_stage, gathered_packages, no_sudo_stage,
  package_stage, pwndbg_stage, pwntools_stage, sort_stage, staged_plan, start_plan,
}
use pwnbridge.Bootstrap.Plan.Sudo.{no_sudo_stage-steps, sudo_stage-steps}

module _ (inventory : Inventory) (value : Recipe) (options : PlanOptions) where
  -- Nothing is left to do for a component.
  pub record Healthy (id : Bytes) : Type 0 where
    pub works : component_healthy inventory id (component_of id).tools ≡ true
    pub allowed : (bytes_eq id component_pwndbg && is_musl inventory) ≡ false

  decide-Healthy :
      (id : Bytes)
      → Healthy id
      → decide inventory id options ≡ quiet_outcome inventory id skip (codes "already healthy") []
  unfolding decide
  decide-Healthy id h = rw (h.allowed, h.works) refl

  -- An action that adds no package and does nothing.
  abbrev pub Idle : List Action → Type 0
  Idle [] = Unit
  Idle (action ∷ actions) = (action.state ≡ skip) × (action.packages ≡ []) × Idle actions

  module _ (healthy : (id : Bytes) → one_of id value.components ≡ true → Healthy id) where
    decided-Idle :
        (order : List Bytes)
        → Idle (decided inventory value options (chosen value.components order))
    unfolding chosen
    decided-Idle [] = tt
    decided-Idle (id ∷ order) = elim (Bool-cases (one_of id value.components)) [
      | inr e ↦ rw e (decided-Idle order)
      | inl e ↦
          let same = decide-Healthy id (healthy id e) in
          rw e (
            ap (λ o. Action.state (Outcome.action o)) same,
            ap (λ o. Action.packages (Outcome.action o)) same,
            decided-Idle order,
          )
    ]

    gathered_packages-Idle :
        (actions : List Action)
        → Idle actions
        → gathered_packages inventory value options actions ≡ []
    unfolding gathered_packages
    gathered_packages-Idle [] h = refl
    gathered_packages-Idle (action ∷ actions) (h, k, rest) =
        rw (k, gathered_packages-Idle actions rest) refl

    component_loop-steps :
        (ids : List Bytes) (p : ResolvedPlan)
        → (component_loop inventory value options ids p).steps ≡ p.steps
    unfolding component_loop add_outcome
    component_loop-steps [] p = refl
    component_loop-steps (id ∷ ids) p =
        component_loop-steps ids (add_outcome (decide inventory id options) p)

    package_stage-Idle :
        (p : ResolvedPlan)
        → gathered_packages inventory value options p.actions ≡ []
        → value.system_packages ≡ []
        → (package_stage inventory value options p).steps ≡ p.steps
    unfolding package_stage stable_unique unique_from
    package_stage-Idle p h k = rw (h, k) refl

    -- A component that is not selected, or works as it is.
    unneeded :
        (id : Bytes) (healthy_bare : Bool)
        → (Healthy id → healthy_bare ≡ true)
        → (one_of id value.components && not healthy_bare) ≡ false
    unneeded id bare h = elim (Bool-cases (one_of id value.components)) [
      | inr e ↦ rw e refl
      | inl e ↦ rw (e, h (healthy id e)) refl
    ]

    pwntools_stage-Idle :
        (p : ResolvedPlan)
        → value.pip_packages ≡ []
        → (pwntools_stage inventory value options p).steps ≡ p.steps
    unfolding pwntools_stage component_healthy bytes_eq
    pwntools_stage-Idle p k =
        let bare = component_healthy inventory component_pwntools [] in
        ap ResolvedPlan.steps (
          if-false
            (one_of component_pwntools value.components
              && (not bare || not (length value.pip_packages == 0)))
            _ p
            (elim (Bool-cases (one_of component_pwntools value.components)) [
              | inr e ↦ rw e refl
              | inl e ↦
                  let works : bare ≡ true = Healthy.works (healthy component_pwntools e) in
                  rw (k, e, works) refl
            ]))

    pwndbg_stage-Idle :
        (p : ResolvedPlan) → (pwndbg_stage inventory value options p).steps ≡ p.steps
    unfolding pwndbg_stage component_healthy bytes_eq
    pwndbg_stage-Idle p = ap ResolvedPlan.steps (
        if-false
          (one_of component_pwndbg value.components
            && not (component_healthy inventory component_pwndbg [])
            && not (is_musl inventory))
          _ p
          (rw
            (unneeded component_pwndbg (component_healthy inventory component_pwndbg [])
              (λ h. h.works))
            refl))

    docker_stage-Idle : (p : ResolvedPlan) → (docker_stage inventory value options p) ≡ p
    unfolding docker_stage component_healthy bytes_eq
    docker_stage-Idle p =
        if-false _ _ p (
          unneeded component_docker (component_healthy inventory component_docker [])
            (λ h. h.works))

    no_sudo_stage-Idle :
        (p : ResolvedPlan) → p.steps ≡ [] → (no_sudo_stage inventory value options p).steps ≡ []
    unfolding no_sudo_stage filter_user_steps
    no_sudo_stage-Idle p h = elim (Bool-cases options.no_sudo) [
      | inr e ↦ rw e h
      | inl e ↦ no_sudo_stage-steps inventory value options p e ∙ ap filter_user_steps h
    ]

    -- On a host where all selected components work, and none of them is excluded by the host's libc,
    -- the plan of a recipe without extra packages has no step, and its actions only skip.
    pub staged_plan-Idle :
        (explanations : List Bytes)
        → value.system_packages ≡ []
        → value.pip_packages ≡ []
        → ((staged_plan inventory value options explanations).steps ≡ [])
          × Idle (staged_plan inventory value options explanations).actions
    unfolding staged_plan start_plan sort_stage
    staged_plan-Idle explanations no_system no_pip =
        let ids = chosen value.components component_order in
        let p0 = start_plan inventory value options explanations in
        let p1 = component_loop inventory value options ids p0 in
        let p2 = package_stage inventory value options p1 in
        let p3 = pwntools_stage inventory value options p2 in
        let p4 = pwndbg_stage inventory value options p3 in
        let p5 = docker_stage inventory value options p4 in
        let idle = decided-Idle component_order in
        let nothing : gathered_packages inventory value options p1.actions ≡ [] =
          ap (gathered_packages inventory value options)
            (component_loop-actions inventory value options ids p0)
          ∙ gathered_packages-Idle (decided inventory value options ids) idle in
        let at_five : p5.steps ≡ [] =
          ap ResolvedPlan.steps (docker_stage-Idle p4)
          ∙ pwndbg_stage-Idle p3
          ∙ pwntools_stage-Idle p2 no_pip
          ∙ package_stage-Idle p1 nothing no_system
          ∙ component_loop-steps ids p0 in
        (
          sudo_stage-steps inventory value options (no_sudo_stage inventory value options p5)
              ∙ no_sudo_stage-Idle p5 at_five,
          (rw (staged_plan-actions inventory value options explanations) idle),
        )

  -- BuildPlan ends, whatever the host, the recipe and the options are.
  pub build_plan_ends :
      (quote : Bytes → Bytes) (explanations : List Bytes)
      → (out : Result Bytes ResolvedPlan) × (build_plan inventory value options quote explanations
          ≡ some out)
  unfolding build_plan validate_recipe
  build_plan_ends quote explanations = elim (Option-cases (validate_portable quote value)) [
    | inr (problem, e) ↦
        (err problem, rw (build_plan, validate_catalog-none, validate_recipe, e) refl)
    | inl e ↦
        let (resolved, ends) = resolve_recipe_ends quote value [] [] [] [] in
        elim (Result-cases resolved) [
          | inr (problem, k) ↦ (
            err problem,
            rw (build_plan, validate_catalog-none, validate_recipe, e, ends, k) refl,
          )
          | inl (r, k) ↦ (
            ok (staged_plan inventory value options explanations),
            rw (build_plan, validate_catalog-none, validate_recipe, e, ends, k) refl,
          )
        ]
  ]
