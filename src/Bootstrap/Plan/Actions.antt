-- ===== src/Bootstrap/Plan/Actions.antt =====
-- The actions of a plan: one decision for each selected component.
use pwnbridge.Prelude.{false, List, [], ◌∷◌, ◌++◌, ◌≡◌, refl, sym, ◌∙◌, append_assoc, append-nil}
use pwnbridge.Prelude.Text.{Bytes}
use pwnbridge.Config.Types.{Recipe}
use pwnbridge.Bootstrap.Names.{component_order}
use pwnbridge.Bootstrap.Resolve.{chosen}
use pwnbridge.Bootstrap.Inventory.{Inventory}
use pwnbridge.Bootstrap.Plan.{Action, PlanOptions, ResolvedPlan}
use pwnbridge.Bootstrap.Plan.Decide.{Outcome, decide}
use pwnbridge.Bootstrap.Plan.Build.{
  add_outcome, component_loop, docker_stage, no_sudo_stage, package_stage, pwndbg_stage,
  pwntools_stage, staged_plan, start_plan, sudo_stage,
}
use pwnbridge.Bootstrap.Plan.Stages.{
  Appends, append-eq-nil, append-eq-nil_right, docker_stage-Appends, no_sudo_stage-Appends,
  package_stage-Appends, pwndbg_stage-Appends, pwntools_stage-Appends, sort_stage-Appends,
  sudo_stage-Appends,
}
use pwnbridge.Bootstrap.Plan.Sound.{Sound, decide-Sound, is_unsupported}

-- None of the actions leaves its component unsupported.
abbrev pub Supported : List Action → Type 0
Supported [] = Unit
Supported (action ∷ actions) = (is_unsupported action.state ≡ false) × Supported actions

abbrev pub names_of : List Action → List Bytes
names_of [] = []
names_of (action ∷ actions) = action.component ∷ names_of actions

module _ (inventory : Inventory) (value : Recipe) (options : PlanOptions) where
  abbrev pub decided : List Bytes → List Action
  decided [] = []
  decided (id ∷ ids) = Outcome.action (decide inventory id options) ∷ decided ids

  pub names_of-decided : (ids : List Bytes) → names_of (decided ids) ≡ ids
  names_of-decided [] = refl
  names_of-decided (id ∷ ids) =
      rw (Sound.named (decide-Sound inventory id options), names_of-decided ids) refl

  pub component_loop-actions :
      (ids : List Bytes) (p : ResolvedPlan)
      → (component_loop inventory value options ids p).actions ≡ p.actions ++ decided ids
  unfolding component_loop add_outcome
  component_loop-actions [] p = sym (append-nil p.actions)
  component_loop-actions (id ∷ ids) p =
      let o = decide inventory id options in
      component_loop-actions ids (add_outcome o p)
      ∙ append_assoc p.actions (o.action ∷ []) (decided ids)

  pub component_loop_clear :
      (ids : List Bytes) (p : ResolvedPlan)
      → (component_loop inventory value options ids p).blockers ≡ []
      → (p.blockers ≡ []) × Supported (decided ids)
  unfolding component_loop add_outcome
  component_loop_clear [] p h = (h, tt)
  component_loop_clear (id ∷ ids) p h =
      let o = decide inventory id options in
      let (clear, rest) = component_loop_clear ids (add_outcome o p) h in
      (
        append-eq-nil p.blockers o.blockers clear,
        (
          Sound.supported (decide-Sound inventory id options)
              (append-eq-nil_right p.blockers o.blockers clear),
          rest,
        ),
      )

  -- The plan that is staged has the actions of the loop.
  pub staged_plan-actions :
      (explanations : List Bytes)
      → (staged_plan inventory value options explanations).actions
        ≡ decided (chosen value.components component_order)
  unfolding staged_plan start_plan
  staged_plan-actions explanations =
      let ids = chosen value.components component_order in
      let p0 = start_plan inventory value options explanations in
      let p1 = component_loop inventory value options ids p0 in
      let p2 = package_stage inventory value options p1 in
      let p3 = pwntools_stage inventory value options p2 in
      let p4 = pwndbg_stage inventory value options p3 in
      let p5 = docker_stage inventory value options p4 in
      let p6 = no_sudo_stage inventory value options p5 in
      let p7 = sudo_stage inventory value options p6 in
      Appends.same (sort_stage-Appends inventory value options p7)
      ∙ Appends.same (sudo_stage-Appends inventory value options p6)
      ∙ Appends.same (no_sudo_stage-Appends inventory value options p5)
      ∙ Appends.same (docker_stage-Appends inventory value options p4)
      ∙ Appends.same (pwndbg_stage-Appends inventory value options p3)
      ∙ Appends.same (pwntools_stage-Appends inventory value options p2)
      ∙ Appends.same (package_stage-Appends inventory value options p1)
      ∙ component_loop-actions ids p0
