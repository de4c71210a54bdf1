-- ===== src/Bootstrap/Plan/Decide.antt =====
-- internal/bootstrap/planner.go: what a plan does about one component, in the cases of the source and
-- in their order. The packages that a case adds to the plan are those of its action.
use pwnbridge.Prelude.{not, ◌&&◌, List, [], ◌∷◌, ◌++◌, none, some, if◌then◌else◌}
use pwnbridge.Prelude.Map.{map_lookup}
use pwnbridge.Prelude.Text.{Bytes, codes, bytes_eq}
use pwnbridge.Config.Names.{is_empty}
use pwnbridge.Config.Validate.{differs}
use pwnbridge.Bootstrap.Names.{component_pwntools, component_pwndbg, manager_apt, manager_nix}
use pwnbridge.Bootstrap.Catalog.{component_of}
use pwnbridge.Bootstrap.Inventory.{Inventory}
use pwnbridge.Bootstrap.Plan.{
  Action, ActionState, PlanOptions, component_healthy, container_alternative, install, is_musl,
  repair, skip, unsupported,
}

-- An action, with the warnings and the blockers that go with it.
pub record Outcome : Type 0 where
  pub action : Action
  pub warnings : List Bytes
  pub blockers : List Bytes

module _ (inventory : Inventory) (id : Bytes) where
  abbrev action_of : ActionState → Bytes → List Bytes → Bytes → Action
  action_of state detail packages alternative = record {
    component = id;
    state = state;
    detail = detail;
    packages = packages;
    privileged = (component_of id).privileged && differs inventory.package_manager manager_nix;
    network = (component_of id).network;
    alternative = alternative;
  }

  abbrev pub quiet_outcome : ActionState → Bytes → List Bytes → Outcome
  quiet_outcome state detail packages = record {
    action = action_of state detail packages (component_of id).alternative;
    warnings = [];
    blockers = [];
  }

  abbrev pub blocked_outcome : Bytes → Bytes → Bytes → Bytes → Outcome
  blocked_outcome detail alternative warning blocker = record {
    action = action_of unsupported detail [] alternative;
    warnings = (warning ++ codes "; " ++ alternative) ∷ [];
    blockers = (id ++ blocker ++ codes "; " ++ alternative) ∷ [];
  }

  abbrev missing_capability : List Bytes → Outcome
  missing_capability packages = quiet_outcome install (codes "missing required capability") packages

  unfoldable pub decide_musl : Outcome
  decide_musl =
      blocked_outcome (codes "portable Pwndbg is incompatible with musl")
        (codes
          "use a glibc-based Docker/Podman container or install a compatible debugger manually")
        (codes "portable Pwndbg is incompatible with musl") (codes " is unsupported on this host")

  unfoldable pub decide_immutable : Outcome
  decide_immutable =
      blocked_outcome (codes "immutable host has no safe Nix user-profile adapter")
        (container_alternative inventory)
        (id ++ codes ": immutable host has no safe Nix user-profile adapter")
        (codes " is unsupported on this immutable host")

  unfoldable pub decide_mapped : Outcome
  decide_mapped = elim (map_lookup inventory.package_manager (component_of id).packages) [
    | some mapped ↦ missing_capability mapped
    | none ↦
        if bytes_eq id component_pwntools
        then missing_capability []
        else blocked_outcome (codes "no safe package mapping for " ++ inventory.package_manager)
            (container_alternative inventory)
            (id ++ codes ": no safe package mapping for " ++ inventory.package_manager)
            (codes " has no supported " ++ inventory.package_manager ++ codes " mapping")
  ]

  unfoldable pub decide_default : PlanOptions → Outcome
  decide_default options =
      if bytes_eq id component_pwntools
        && bytes_eq inventory.package_manager manager_apt
        && not options.no_sudo
      then missing_capability (elim (map_lookup manager_apt (component_of id).packages) [
        | none ↦ []
        | some packages ↦ packages
      ])
      else missing_capability []

  unfoldable pub decide : PlanOptions → Outcome
  decide options =
      if bytes_eq id component_pwndbg && is_musl inventory
      then decide_musl
      else if component_healthy inventory id (component_of id).tools
      then quiet_outcome skip (codes "already healthy") []
      else if bytes_eq id component_pwntools && not (is_empty inventory.pwntools_version)
      then quiet_outcome repair
          (codes "managed pwntools version is "
            ++ inventory.pwntools_version
            ++ codes ", want 4.15.0")
          []
      else if bytes_eq id component_pwndbg && not (is_empty inventory.pwndbg_version)
      then quiet_outcome repair (codes "managed Pwndbg installation is incomplete or outdated") []
      else if inventory.immutable
          && differs inventory.package_manager manager_nix
          && (component_of id).privileged
      then decide_immutable
      else if (component_of id).privileged
      then decide_mapped
      else decide_default options
