-- ===== src/Bootstrap/Plan/Sudo.antt =====
-- The steps of a plan that need root.
use pwnbridge.Prelude.{
  true, false, ◌&&◌, not, List, [], ◌∷◌, ◌≡◌, refl, ap, ◌∙◌, Bool-cases, inl, inr, length, ◌==◌,
}
use pwnbridge.Prelude.Text.{Bytes}
use pwnbridge.Config.Types.{Recipe}
use pwnbridge.Config.Validate.{differs}
use pwnbridge.Bootstrap.Names.{component_order, manager_nix}
use pwnbridge.Bootstrap.Resolve.{chosen}
use pwnbridge.Bootstrap.Inventory.{Inventory}
use pwnbridge.Bootstrap.Steps.{Step, filter_user_steps, has_sudo_steps}
use pwnbridge.Bootstrap.Plan.{PlanOptions, ResolvedPlan}
use pwnbridge.Bootstrap.Plan.Build.{
  add_blockers, component_loop, docker_stage, package_stage, pwndbg_stage, pwntools_stage,
  start_plan, missing_without_sudo, no_sudo_stage, sort_stage, staged_plan, sudo_stage,
}

has_sudo_steps-filter_user_steps :
    (steps : List Step) → has_sudo_steps (filter_user_steps steps) ≡ false
unfolding has_sudo_steps filter_user_steps
has_sudo_steps-filter_user_steps [] = refl
has_sudo_steps-filter_user_steps (step ∷ steps) = elim (Bool-cases step.sudo) [
  | inl e ↦ rw e (has_sudo_steps-filter_user_steps steps)
  | inr e ↦ rw e (has_sudo_steps-filter_user_steps steps)
]

module _ (inventory : Inventory) (value : Recipe) (options : PlanOptions) where
  pub sudo_stage-steps :
      (plan : ResolvedPlan) → (sudo_stage inventory value options plan).steps ≡ plan.steps
  unfolding sudo_stage add_blockers
  sudo_stage-steps plan =
      elim (Bool-cases (
        not inventory.root
        && differs inventory.package_manager manager_nix
        && has_sudo_steps plan.steps
        && not inventory.sudo_available)) [ inl e ↦ rw e refl | inr e ↦ rw e refl ]

  pub no_sudo_stage-steps :
      (plan : ResolvedPlan)
      → options.no_sudo ≡ true
      → (no_sudo_stage inventory value options plan).steps ≡ filter_user_steps plan.steps
  unfolding no_sudo_stage add_blockers
  no_sudo_stage-steps plan h =
      elim (Bool-cases (length (missing_without_sudo inventory value options plan) == 0)) [
        | inl e ↦ rw (e, h) refl
        | inr e ↦ rw (e, h) refl
      ]

  -- A plan that is made with --no-sudo has no step that needs root.
  pub staged_plan-no_sudo :
      (explanations : List Bytes)
      → options.no_sudo ≡ true
      → has_sudo_steps (staged_plan inventory value options explanations).steps ≡ false
  unfolding staged_plan sort_stage
  staged_plan-no_sudo explanations h =
      let before = docker_stage inventory value options (
        pwndbg_stage inventory value options (
          pwntools_stage inventory value options (
            package_stage inventory value options (
              component_loop inventory value options (chosen value.components component_order)
                (start_plan inventory value options explanations))))) in
      ap has_sudo_steps (
        sudo_stage-steps (no_sudo_stage inventory value options before)
        ∙ no_sudo_stage-steps before h)
      ∙ has_sudo_steps-filter_user_steps before.steps
