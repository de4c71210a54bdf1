-- ===== src/Diagnostics.antt =====
-- internal/diagnostics/diagnostics.go: the checks of the remote host, from its inventory and its plan.
-- The checks of local programs are left out.
use pwnbridge.Prelude.{
  ℕ, suc, ◌*◌, Bool, true, false, not, ◌&&◌, ◌||◌, List, [], ◌∷◌, ◌++◌, Option, none, some, leb,
  ◌==◌, if◌then◌else◌, length,
}
use pwnbridge.Prelude.Text.{Bytes, codes, bytes_eq}
use pwnbridge.Config.Names.{is_empty, one_of}
use pwnbridge.Config.Validate.{differs}
use pwnbridge.Recipe.Space.{trim_space}
use pwnbridge.Bootstrap.Names.{
  component_core, component_docker, component_order, component_podman, component_pwndbg,
  component_pwntools,
}
use pwnbridge.Bootstrap.Entries.{Component}
use pwnbridge.Bootstrap.Catalog.{catalog_list}
use pwnbridge.Bootstrap.Inventory.{Inventory, has_tool}
use pwnbridge.Bootstrap.Steps.{pwndbg_version}
use pwnbridge.Bootstrap.Plan.{
  Action, ActionState, ResolvedPlan, all_tools, install, itoa, repair, skip, unsupported, warning,
}
use pwnbridge.Bootstrap.Plan.Build.{is_skip, validate_executable}
pub mod Registered
mod Tests

pub record Check : Type 0 where
  pub name : Bytes
  pub passed : Bool
  pub detail : Bytes
  pub remediation : Bytes
  pub component : Bytes
  pub severity : Bytes
  pub state : Bytes

unfoldable pub capability_state : Bool → Bytes
capability_state true = codes "installed"
capability_state false = codes "missing"

-- A check of a capability: an error when it is missing.
abbrev pub capability : Bytes → Bool → Bytes → Bytes → Check
capability name passed detail remediation = record {
  name = name;
  passed = passed;
  detail = detail;
  remediation = remediation;
  component = [];
  severity = codes "error";
  state = capability_state passed;
}

abbrev pub ptrace_check : Bytes → Check
ptrace_check scope =
    record (capability (codes "remote-ptrace") (differs scope (codes "3"))
      (codes "yama.ptrace_scope=" ++ scope)
      (codes "allow same-user debugging or use a compatible container/host")) {
        component = codes "gdb";
      }

unfoldable pub ptrace_checks : Bytes → List Check
ptrace_checks scope = if is_empty scope then [] else ptrace_check scope ∷ []

abbrev truth : Bool → Bytes
truth true = codes "true"
truth false = codes "false"

unfoldable pub remote_prerequisite_checks : Inventory → List Check
remote_prerequisite_checks inventory =
    capability (codes "ssh") (not (is_empty inventory.os)) inventory.host []
      ∷ capability (codes "remote-platform")
          (bytes_eq inventory.os (codes "linux") && bytes_eq inventory.architecture (codes "amd64"))
          (inventory.os ++ codes "/" ++ inventory.architecture) (codes "use a Linux x86-64 host")
      ∷ record {
        name = codes "remote-distro";
        passed = true;
        detail = trim_space (inventory.distro ++ codes " " ++ inventory.distro_version);
        remediation = [];
        component = [];
        severity = codes "info";
        state = inventory.package_manager;
      }
      ∷ capability (codes "remote-home") inventory.home_writable
          (codes "writable=" ++ truth inventory.home_writable)
          (codes "make the remote home writable")
      ∷ capability (codes "remote-disk") (leb (1024 * 1024) inventory.disk_available_kib)
          (codes "available=" ++ itoa inventory.disk_available_kib ++ codes " KiB")
          (codes "make at least 1 GiB available in the remote home filesystem")
      ∷ capability (codes "remote-inodes") (leb 1000 inventory.inodes_available)
          (codes "available=" ++ itoa inventory.inodes_available)
          (codes "make at least 1000 inodes available in the remote home filesystem")
      ∷ []
    ++ ptrace_checks inventory.ptrace_scope

abbrev state_name : ActionState → Bytes
state_name install = codes "install"
state_name repair = codes "repair"
state_name skip = codes "skip"
state_name warning = codes "warning"
state_name unsupported = codes "unsupported"

abbrev is_left_out : ActionState → Bool
is_left_out unsupported = true
is_left_out install = false
is_left_out repair = false
is_left_out skip = false
is_left_out warning = false

unfoldable pub action_checks : List Bytes → List Action → List Check
action_checks selected [] = []
action_checks selected (action ∷ actions) =
    record {
      name = codes "bootstrap-" ++ action.component;
      passed = is_skip action.state;
      detail = action.detail;
      remediation = codes "run pwnbridge host bootstrap";
      component = action.component;
      severity =
          if is_left_out action.state
            && differs action.component component_core
            && not (one_of action.component selected)
          then codes "info"
          else codes "error";
      state = state_name action.state;
    }
    ∷ action_checks selected actions

unfoldable pub unselected_installed : Inventory → Component → Bool
unselected_installed inventory component =
    if bytes_eq component.id component_pwntools
    then bytes_eq inventory.pwntools_version (codes "4.15.0")
    else if bytes_eq component.id component_pwndbg
    then bytes_eq inventory.pwndbg_version pwndbg_version
    else if bytes_eq component.id component_docker
    then has_tool inventory (codes "docker")
    else if bytes_eq component.id component_podman
    then has_tool inventory (codes "podman")
    else not (length component.tools == 0) && all_tools inventory component.tools

unfoldable pub unselected_checks : Inventory → List Bytes → List Component → List Check
unselected_checks inventory selected [] = []
unselected_checks inventory selected (component ∷ components) =
    let rest = unselected_checks inventory selected components in
    if one_of component.id selected || not (unselected_installed inventory component)
    then rest
    else record {
      name = codes "bootstrap-" ++ component.id;
      passed = true;
      detail = codes "installed but not selected by recipe";
      remediation = [];
      component = component.id;
      severity = codes "info";
      state = codes "installed-unselected";
    }
      ∷ rest

unfoldable pub bootstrap_checks : Inventory → ResolvedPlan → List Check
bootstrap_checks inventory plan =
    remote_prerequisite_checks inventory
    ++ action_checks plan.recipe.components plan.actions
    ++ unselected_checks inventory plan.recipe.components (catalog_list component_order)

unfoldable pub pending_actions : List Action → ℕ
pending_actions [] = 0
pending_actions (action ∷ actions) =
    let rest = pending_actions actions in if is_skip action.state then rest else suc rest

unfoldable pub plan_check : ResolvedPlan → Check
plan_check plan =
    let ready : Check = record {
      name = codes "bootstrap-plan";
      passed = true;
      detail =
          codes "profile="
          ++ plan.recipe.name
          ++ codes " pending_actions="
          ++ itoa (pending_actions plan.actions);
      remediation = codes "resolve bootstrap blockers before registering this host";
      component = [];
      severity = codes "error";
      state = codes "ready";
    } in
    elim (validate_executable plan) [
      | none ↦ ready
      | some problem ↦ record ready { passed = false; detail = problem; state = codes "blocked" }
    ]

unfoldable pub registration : Inventory → ResolvedPlan → List Check
registration inventory plan = remote_prerequisite_checks inventory ++ plan_check plan ∷ []

unfoldable pub healthy : List Check → Bool
healthy [] = true
healthy (check ∷ checks) =
    let rest = healthy checks in
    if not check.passed && (is_empty check.severity || bytes_eq check.severity (codes "error"))
    then false
    else rest
