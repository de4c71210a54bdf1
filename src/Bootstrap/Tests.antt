-- ===== src/Bootstrap/Tests.antt =====
-- Witnesses of the theorems on a bootstrap.
use pwnbridge.Prelude.{
  Option, none, ℕ, length, Bool-cases, List, [], false, inl, inr, none, refl, some, true, ◌++◌, ◌∷◌,
  ◌≡◌,
}
use pwnbridge.Prelude.Int.{pos}
use pwnbridge.Recipe.Space.{cut, space_length, trim_left, trim_space}
use pwnbridge.Prelude.Map.{map_lookup}
use pwnbridge.Prelude.Result.{Result, ok}
use pwnbridge.Prelude.Text.{Bytes, bytes_eq_sound, bytes_eq, codes, has_prefix, index}
use pwnbridge.Config.Layers.{ℤ_eq}
use pwnbridge.Config.Names.{itoa_digits, one_of, split}
use pwnbridge.Config.Types.{Recipe}
use pwnbridge.Bootstrap.Catalog.{
  component_of, is_known, order_problem, unknown_dependency, validate_catalog,
}
use pwnbridge.Bootstrap.Inventory.{
  Inventory, apply_rules, normalize_arch, empty_inventory, has_tool, home_line, inspect, read_lines,
  root_line, sudo_line, to_lower,
}
use pwnbridge.Bootstrap.Inventory.Granted.{inspect_granted, some_line}
use pwnbridge.Bootstrap.Names.{manager_apt, words}
use pwnbridge.Bootstrap.Plan.{
  PlanOptions, all_tools, component_healthy, container_alternative, inventory_checks, is_musl,
}
use pwnbridge.Bootstrap.Plan.Build.{
  add_blockers, add_outcome, add_steps, add_warnings, build_plan, component_loop,
  docker_group_stage, docker_service_stage, docker_stage, gathered_packages, missing_without_sudo,
  no_sudo_stage, package_stage, privileged_missing, pwndbg_stage, pwntools_stage, sort_stage,
  staged_plan, start_plan, sudo_stage, validate_executable,
}
use pwnbridge.Bootstrap.Plan.Decide.{
  decide, decide_default, decide_immutable, decide_mapped, decide_musl,
}
use pwnbridge.Bootstrap.Plan.Done.{Healthy, Idle, staged_plan-Idle}
use pwnbridge.Bootstrap.Plan.Executable.{Executable, build_plan-Executable}
use pwnbridge.Bootstrap.Plan.Sudo.{staged_plan-no_sudo}
use pwnbridge.Bootstrap.Resolve.{
  add_dependency, chosen, dependencies_round, deselect, disable, join_comma, order_round, requested,
  resolve_recipe, resolved_recipe, rounds, select_all, select_known, unknown_component,
  validate_recipe,
}
use pwnbridge.Bootstrap.Resolve.Resolved.{
  Resolution, resolve_recipe-Resolution, resolve_recipe_ends,
}
use pwnbridge.Bootstrap.Log.{
  BoundedLogWriter, Written, log_write, write_loop, write_mark, write_marked, write_whole,
}
use pwnbridge.Bootstrap.Log.Bounded.{Within, log_write-Within}
use pwnbridge.Bootstrap.Steps.{
  docker_setup_steps, filter_user_steps, has_sudo_steps, install_argv, install_step, package_steps,
  prefixed, pwndbg_steps, pwntools_steps, refresh_steps, service_steps,
}
use pwnbridge.Recipe.{
  new_recipe, normalize, recipe_checks, recipe_name_byte, stable_unique, unique_from, valid_name,
  validate_portable,
}
use pwnbridge.Recipe.Sort.{bytes_less, complaints, insert, joined, sort_strings}

abbrev quoted : Bytes → Bytes
quoted name = 34 ∷ name ++ 34 ∷ []

abbrev mosh_recipe : Recipe
mosh_recipe = new_recipe (codes "ctf") (words "mosh tracing")

abbrev resolved : Recipe
resolved = new_recipe (codes "ctf") (words "core gdb python pwntools tracing pwndbg")

resolve_recipe_ends_example :
    (out : Result Bytes (Recipe × List Bytes)) × (resolve_recipe quoted mosh_recipe
        (words "pwndbg")
        (words "mosh")
        []
        []
      ≡ some out)
resolve_recipe_ends_example =
    resolve_recipe_ends quoted mosh_recipe (words "pwndbg") (words "mosh") [] []

resolve_recipe_run :
    resolve_recipe quoted mosh_recipe (words "pwndbg") (words "mosh") [] []
    ≡ some (ok (resolved, []))
unfolding resolve_recipe requested select_known new_recipe is_known map_lookup bytes_eq disable
    component_of rounds order_round one_of deselect select_all dependencies_round add_dependency
    resolved_recipe validate_portable chosen unknown_component ℤ_eq complaints joined normalize
    recipe_checks recipe_name_byte stable_unique unique_from valid_name
resolve_recipe_run = refl

resolve_recipe-Resolution_example : Resolution mosh_recipe (words "pwndbg") (words "mosh") resolved
resolve_recipe-Resolution_example =
    resolve_recipe-Resolution quoted mosh_recipe (words "pwndbg") (words "mosh") [] [] resolved []
      resolve_recipe_run

abbrev host : Inventory
host = record empty_inventory {
  os = codes "linux";
  architecture = codes "amd64";
  package_manager = manager_apt;
  home_writable = true;
  sudo_available = true;
  service_manager = codes "systemd";
}

abbrev docker_recipe : Recipe
docker_recipe = new_recipe (codes "ctf") (words "core gdb python pwntools docker")

abbrev accepting : PlanOptions
accepting = record { no_sudo = false; accept_docker_root_risk = true }

abbrev without_sudo : PlanOptions
without_sudo = record { no_sudo = true; accept_docker_root_risk = true }

built :
    build_plan host docker_recipe accepting quoted []
    ≡ some (ok (staged_plan host docker_recipe accepting []))
unfolding resolve_recipe requested select_known new_recipe is_known map_lookup bytes_eq disable
    component_of rounds order_round one_of deselect select_all dependencies_round add_dependency
    resolved_recipe validate_portable chosen unknown_component ℤ_eq complaints joined normalize
    recipe_checks recipe_name_byte stable_unique unique_from valid_name build_plan validate_catalog
    order_problem unknown_dependency validate_recipe
built = refl

executable : validate_executable (staged_plan host docker_recipe accepting []) ≡ none
unfolding validate_executable staged_plan start_plan inventory_checks component_loop add_outcome
    decide decide_musl decide_immutable decide_mapped decide_default component_healthy all_tools
    has_tool is_musl to_lower container_alternative package_stage gathered_packages package_steps
    refresh_steps install_step install_argv prefixed pwntools_stage pwntools_steps pwndbg_stage
    pwndbg_steps docker_stage docker_service_stage docker_group_stage docker_setup_steps
    service_steps no_sudo_stage missing_without_sudo privileged_missing filter_user_steps sudo_stage
    has_sudo_steps sort_stage sort_strings insert bytes_less add_blockers add_steps add_warnings
    stable_unique unique_from one_of bytes_eq map_lookup component_of new_recipe index has_prefix
    complaints chosen join_comma itoa_digits
executable = refl

build_plan-Executable_example :
    Executable host docker_recipe accepting (staged_plan host docker_recipe accepting [])
build_plan-Executable_example =
    build_plan-Executable host docker_recipe accepting quoted []
      (staged_plan host docker_recipe accepting []) built executable

staged_plan-no_sudo_example :
    has_sudo_steps (staged_plan host docker_recipe without_sudo []).steps ≡ false
staged_plan-no_sudo_example = staged_plan-no_sudo host docker_recipe without_sudo [] refl

abbrev working : Inventory
working = record host {
  tools = (codes "podman", true) ∷ (codes "strace", true) ∷ (codes "ltrace", true) ∷ [];
}

abbrev idle_recipe : Recipe
idle_recipe = record {
  schema = pos 1;
  name = codes "ctf";
  components = words "podman tracing";
  system_packages = [];
  pip_packages = [];
}

works :
    (id : Bytes)
    → one_of id idle_recipe.components ≡ true
    → Healthy working idle_recipe without_sudo id
unfolding one_of bytes_eq component_healthy all_tools has_tool map_lookup component_of is_musl
works id h = elim (Bool-cases (bytes_eq id (codes "podman"))) [
  | inl e ↦ rw (bytes_eq_sound id (codes "podman") e) (record { works = refl; allowed = refl })
  | inr e ↦ elim (Bool-cases (bytes_eq id (codes "tracing"))) [
    | inl k ↦ rw (bytes_eq_sound id (codes "tracing") k) (record { works = refl; allowed = refl })
    | inr k ↦ cc (rw (one_of, e, k) at (h))
  ]
]

staged_plan-Idle_example :
    ((staged_plan working idle_recipe without_sudo []).steps ≡ [])
    × Idle working idle_recipe without_sudo
        (staged_plan working idle_recipe without_sudo []).actions
staged_plan-Idle_example = staged_plan-Idle working idle_recipe without_sudo works [] refl refl

abbrev probe : Bytes
probe =
    codes "__PB_OS__Linux"
    ++ b'\n' ∷ codes "__PB_ARCH__x86_64"
    ++ b'\n' ∷ codes "__PB_ROOT__0"
    ++ b'\n' ∷ codes " __PB_SUDO__1"
    ++ b'\n' ∷ []

abbrev probed : Inventory
probed = record empty_inventory {
  os = codes "linux";
  architecture = codes "amd64";
  sudo_available = true;
}

inspect_run : inspect quoted (ok probe) ≡ ok probed
unfolding inspect read_lines apply_rules split trim_space trim_left space_length has_prefix bytes_eq
    to_lower normalize_arch cut
inspect_run = refl

inspect_granted_example :
    (probed.home_writable ≡ some_line Inventory.home_writable home_line (split b'\n' probe))
    × (probed.root ≡ some_line Inventory.root root_line (split b'\n' probe))
    × (probed.sudo_available ≡ some_line Inventory.sudo_available sudo_line (split b'\n' probe))
inspect_granted_example = inspect_granted quoted probe probed inspect_run

abbrev takes_all : Bytes → Bytes → ℕ × Option Bytes
takes_all target piece = (length piece, none)

abbrev nearly_full : BoundedLogWriter
nearly_full = record { target = []; remaining = 50; truncated = false }

abbrev long_line : Bytes
long_line = codes "a line of a bootstrap that is longer than what remains of its log"

-- The mark has 43 bytes, and so 7 bytes of the line are logged.
log_write_run :
    elim (log_write takes_all nearly_full long_line) [ none ↦ none | some out ↦ some out.writer ]
    ≡ some (record {
      target = codes "a line \n=== bootstrap log truncated at 16 MiB ===\n";
      remaining = 0;
      truncated = true;
    })
unfolding log_write write_marked write_mark write_whole write_loop
log_write_run = refl

log_write-Within_example :
    (out : Written) × (log_write takes_all nearly_full long_line ≡ some out)
    × Within nearly_full out
log_write-Within_example = log_write-Within takes_all nearly_full long_line
