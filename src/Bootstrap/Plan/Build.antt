-- ===== src/Bootstrap/Plan/Build.antt =====
-- internal/bootstrap/planner.go: BuildPlan, in the order of the source, and ValidateExecutable.
use pwnbridge.Prelude.{
  Bool, true, false, not, ◌&&◌, ◌||◌, List, [], ◌∷◌, ◌++◌, Option, none, some, ◌==◌, if◌then◌else◌,
  length,
}
use pwnbridge.Prelude.Result.{Result, ok, err}
use pwnbridge.Prelude.Text.{Bytes, codes, bytes_eq}
use pwnbridge.Config.Names.{is_empty, one_of}
use pwnbridge.Config.Types.{Recipe}
use pwnbridge.Config.Validate.{differs}
use pwnbridge.Recipe.{stable_unique}
use pwnbridge.Recipe.Sort.{complaints, join, sort_strings}
use pwnbridge.Bootstrap.Names.{
  component_order, component_pwntools, component_pwndbg, component_docker, manager_nix,
  manager_unknown,
}
use pwnbridge.Bootstrap.Catalog.{validate_catalog}
use pwnbridge.Bootstrap.Resolve.{chosen, join_comma, validate_recipe}
use pwnbridge.Bootstrap.Inventory.{Inventory}
use pwnbridge.Bootstrap.Steps.{
  Step, docker_setup_steps, filter_user_steps, has_sudo_steps, package_steps, pwndbg_steps,
  pwntools_steps,
}
use pwnbridge.Bootstrap.Plan.{
  Action, ActionState, PlanOptions, ResolvedPlan, component_healthy, inventory_checks, install,
  is_musl, repair, skip, unsupported, warning,
}
use pwnbridge.Bootstrap.Plan.Decide.{Outcome, decide}

-- What is added to a plan at its end.
unfoldable pub add_blockers : List Bytes → ResolvedPlan → ResolvedPlan
add_blockers blockers plan = record plan { blockers = plan.blockers ++ blockers }

unfoldable pub add_steps : List Step → ResolvedPlan → ResolvedPlan
add_steps steps plan = record plan { steps = plan.steps ++ steps }

unfoldable pub add_warnings : List Bytes → ResolvedPlan → ResolvedPlan
add_warnings warnings plan = record plan { warnings = plan.warnings ++ warnings }

abbrev pub is_skip : ActionState → Bool
is_skip skip = true
is_skip install = false
is_skip repair = false
is_skip warning = false
is_skip unsupported = false

abbrev pub changes_host : ActionState → Bool
changes_host install = true
changes_host repair = true
changes_host skip = false
changes_host warning = false
changes_host unsupported = false

unfoldable pub add_outcome : Outcome → ResolvedPlan → ResolvedPlan
add_outcome o plan = record plan {
  actions = plan.actions ++ o.action ∷ [];
  warnings = plan.warnings ++ o.warnings;
  blockers = plan.blockers ++ o.blockers;
  downloads = if is_skip o.action.state then plan.downloads else plan.downloads || o.action.network;
}

module _ (inventory : Inventory) (value : Recipe) (options : PlanOptions) where
  -- The loop on the components; the list has those of the order that are selected.
  unfoldable pub component_loop : List Bytes → ResolvedPlan → ResolvedPlan
  component_loop [] plan = plan
  component_loop (id ∷ ids) plan =
      component_loop ids (add_outcome (decide inventory id options) plan)

  unfoldable pub gathered_packages : List Action → List Bytes
  gathered_packages [] = []
  gathered_packages (action ∷ actions) = action.packages ++ gathered_packages actions

  unfoldable pub start_plan : List Bytes → ResolvedPlan
  start_plan explanations = record {
    recipe = value;
    inventory = inventory;
    actions = [];
    steps = [];
    warnings = [];
    blockers = complaints (inventory_checks inventory);
    explanations = explanations;
    downloads = false;
  }

  unfoldable pub package_stage : ResolvedPlan → ResolvedPlan
  package_stage plan =
      let packages = stable_unique (gathered_packages plan.actions ++ value.system_packages) in
      let unknown = bytes_eq inventory.package_manager manager_unknown in
      let extra =
        if not (length value.system_packages == 0) && unknown
        then add_blockers (codes "extra system packages require a supported package manager" ∷ [])
            plan
        else plan in
      let (refresh, install_packages) = package_steps inventory.package_manager packages in
      if length packages == 0
      then extra
      else if unknown
      then add_blockers
          (codes
              "no supported package manager detected (apt, dnf/yum, pacman, zypper, apk, xbps, emerge, or Nix)"
            ∷ [])
          extra
      else add_steps (install_packages ∷ []) (add_steps refresh extra)

  unfoldable pub pwntools_stage : ResolvedPlan → ResolvedPlan
  pwntools_stage plan =
      if one_of component_pwntools value.components
        && (not (component_healthy inventory component_pwntools [])
            || not (length value.pip_packages == 0))
      then add_steps (pwntools_steps value.pip_packages) plan
      else plan

  unfoldable pub pwndbg_stage : ResolvedPlan → ResolvedPlan
  pwndbg_stage plan =
      if one_of component_pwndbg value.components
        && not (component_healthy inventory component_pwndbg [])
        && not (is_musl inventory)
      then add_steps pwndbg_steps plan
      else plan

  abbrev pub docker_risk : Bytes
  docker_risk =
      codes "Docker group membership is root-equivalent: members can obtain full root access"

  unfoldable pub docker_service_stage : ResolvedPlan → ResolvedPlan
  docker_service_stage plan =
      if is_empty inventory.service_manager
        || bytes_eq inventory.service_manager (codes "unknown")
        || bytes_eq inventory.service_manager (codes "runit")
      then add_blockers
          (codes "enable and start the distro Docker service manually, then rerun bootstrap" ∷ [])
          (add_warnings
            ((codes "Docker daemon enablement is unsupported for service manager "
                ++ inventory.service_manager)
              ∷ [])
            plan)
      else plan

  unfoldable pub docker_group_stage : ResolvedPlan → ResolvedPlan
  docker_group_stage plan =
      if inventory.root
      then add_steps (docker_setup_steps inventory) plan
      else if options.accept_docker_root_risk
      then add_steps (docker_setup_steps inventory) (add_warnings (docker_risk ∷ []) plan)
      else add_blockers
          ((docker_risk ++ codes "; pass --accept-docker-root-risk after reviewing it") ∷ [])
          (add_warnings (docker_risk ∷ []) plan)

  unfoldable pub docker_stage : ResolvedPlan → ResolvedPlan
  docker_stage plan =
      if one_of component_docker value.components
        && not (component_healthy inventory component_docker [])
      then docker_group_stage (docker_service_stage plan)
      else plan

  unfoldable pub privileged_missing : List Action → List Bytes
  privileged_missing [] = []
  privileged_missing (action ∷ actions) =
      let rest = privileged_missing actions in
      if action.privileged && changes_host action.state then action.component ∷ rest else rest

  unfoldable pub missing_without_sudo : ResolvedPlan → List Bytes
  missing_without_sudo plan =
      privileged_missing plan.actions
      ++ (if not (length value.system_packages == 0)
            && differs inventory.package_manager manager_nix
          then codes "extra system packages" ∷ []
          else [])

  unfoldable pub no_sudo_stage : ResolvedPlan → ResolvedPlan
  no_sudo_stage plan =
      let missing = missing_without_sudo plan in
      let blocked =
        if length missing == 0
        then plan
        else add_blockers
            ((codes "--no-sudo cannot satisfy missing privileged prerequisites: "
                ++ join_comma (stable_unique missing))
              ∷ [])
            plan in
      if options.no_sudo then record blocked { steps = filter_user_steps blocked.steps } else plan

  unfoldable pub sudo_stage : ResolvedPlan → ResolvedPlan
  sudo_stage plan =
      if not inventory.root
        && differs inventory.package_manager manager_nix
        && has_sudo_steps plan.steps
        && not inventory.sudo_available
      then add_blockers (codes "privileged steps are required but sudo is unavailable" ∷ []) plan
      else plan

  unfoldable pub sort_stage : ResolvedPlan → ResolvedPlan
  sort_stage plan = record plan { blockers = stable_unique (sort_strings plan.blockers) }

  unfoldable pub staged_plan : List Bytes → ResolvedPlan
  staged_plan explanations = sort_stage (
      sudo_stage (
        no_sudo_stage (
          docker_stage (
            pwndbg_stage (
              pwntools_stage (
                package_stage (
                  component_loop (chosen value.components component_order)
                    (start_plan explanations))))))))

  -- `none` is a resolution of the recipe that does not end.
  unfoldable pub build_plan : (Bytes → Bytes) → List Bytes → Option (Result Bytes ResolvedPlan)
  build_plan quote explanations = elim validate_catalog [
    | some problem ↦ some (err problem)
    | none ↦ elim (validate_recipe quote value) [
      | none ↦ none
      | some (some problem) ↦ some (err problem)
      | some none ↦ some (ok (staged_plan explanations))
    ]
  ]

-- `none` is nil.
unfoldable pub validate_executable : ResolvedPlan → Option Bytes
validate_executable plan =
    if length plan.blockers == 0
    then none
    else some (codes "bootstrap plan has blockers: " ++ join plan.blockers)
