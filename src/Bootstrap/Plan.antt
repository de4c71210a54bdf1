-- ===== src/Bootstrap/Plan.antt =====
-- internal/bootstrap/planner.go: the plan for a host, and whether it may be executed.
use pwnbridge.Prelude.{
  ℕ, ◌*◌, Bool, true, false, not, ◌&&◌, ◌||◌, List, [], ◌∷◌, ◌++◌, Option, none, some, ltb, ◌==◌,
  if◌then◌else◌, length,
}
use pwnbridge.Prelude.Map.{map_lookup}
use pwnbridge.Prelude.Result.{Result, ok, err}
use pwnbridge.Prelude.Text.{Bytes, codes, bytes_eq}
use pwnbridge.Config.Names.{is_empty, itoa_digits, one_of}
use pwnbridge.Config.Types.{Recipe}
use pwnbridge.Config.Validate.{differs, has_key}
use pwnbridge.Recipe.{contains, stable_unique}
use pwnbridge.Recipe.Sort.{Check, complaints, join, sort_strings}
use pwnbridge.Bootstrap.Names.{
  component_order, component_pwntools, component_pwndbg, component_docker, component_podman,
  manager_apt, manager_nix, manager_unknown,
}
use pwnbridge.Bootstrap.Entries.{Component}
use pwnbridge.Bootstrap.Catalog.{component_of, validate_catalog}
use pwnbridge.Bootstrap.Resolve.{join_comma, validate_recipe}
use pwnbridge.Bootstrap.Inventory.{Inventory, has_tool, to_lower}
use pwnbridge.Bootstrap.Steps.{
  Step, docker_setup_steps, filter_user_steps, has_sudo_steps, package_steps, pwndbg_steps,
  pwndbg_version, pwntools_steps,
}
pub mod Decide
pub mod Build
pub mod Sudo
pub mod Sound
pub mod Actions
pub mod Stages
pub mod Executable
pub mod Done

pub data ActionState : Type 0 where
  install : ActionState
  repair : ActionState
  skip : ActionState
  warning : ActionState
  unsupported : ActionState

pub record Action : Type 0 where
  pub component : Bytes
  pub state : ActionState
  pub detail : Bytes
  pub packages : List Bytes
  pub privileged : Bool
  pub network : Bool
  pub alternative : Bytes

pub record ResolvedPlan : Type 0 where
  pub recipe : Recipe
  pub inventory : Inventory
  pub actions : List Action
  pub steps : List Step
  pub warnings : List Bytes
  pub blockers : List Bytes
  pub explanations : List Bytes
  pub downloads : Bool

pub record PlanOptions : Type 0 where
  pub no_sudo : Bool
  pub accept_docker_root_risk : Bool

-- `%d` of a uint64.
abbrev pub itoa : ℕ → Bytes
itoa n = itoa_digits 20 n []

unfoldable pub all_tools : Inventory → List Bytes → Bool
all_tools inventory [] = true
all_tools inventory (tool ∷ tools) = has_tool inventory tool && all_tools inventory tools

unfoldable pub component_healthy : Inventory → Bytes → List Bytes → Bool
component_healthy inventory id tools =
    if bytes_eq id component_pwntools
    then bytes_eq inventory.pwntools_version (codes "4.15.0")
    else if bytes_eq id component_pwndbg
    then bytes_eq inventory.pwndbg_version pwndbg_version
    else if bytes_eq id component_docker
    then has_tool inventory (codes "docker")
      && (inventory.root || has_tool inventory (codes "docker-group"))
    else if bytes_eq id component_podman
    then has_tool inventory (codes "podman")
    else not (length tools == 0) && all_tools inventory tools

unfoldable pub container_alternative : Inventory → Bytes
container_alternative inventory =
    if has_tool inventory (codes "podman")
    then codes "use the detected Podman container engine"
    else if has_tool inventory (codes "docker")
    then codes "use the detected Docker container engine"
    else codes "install the listed prerequisites manually or use a supported container host"

unfoldable pub is_musl : Inventory → Bool
is_musl inventory = contains (to_lower inventory.libc) (codes "musl")

unfoldable pub inventory_checks : Inventory → List Check
inventory_checks inventory =
    (
      differs inventory.os (codes "linux") || differs inventory.architecture (codes "amd64"),
      codes "bootstrap supports linux/amd64; detected "
          ++ inventory.os
          ++ codes "/"
          ++ inventory.architecture,
    )
    ∷ (not inventory.home_writable, codes "remote home is not writable")
    ∷ (
      not (inventory.disk_available_kib == 0) && ltb inventory.disk_available_kib (1024 * 1024),
      codes "at least 1 GiB free is required; detected "
          ++ itoa inventory.disk_available_kib
          ++ codes " KiB",
    )
    ∷ (
      not (inventory.inodes_available == 0) && ltb inventory.inodes_available 1000,
      codes "at least 1000 free inodes are required; detected " ++ itoa inventory.inodes_available,
    )
    ∷ []
