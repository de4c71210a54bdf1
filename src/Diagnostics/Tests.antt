-- ===== src/Diagnostics/Tests.antt =====
-- Witness of the theorem on registrations.
use pwnbridge.Prelude.{[], ◌∷◌, true, false, ◌≡◌, refl}
use pwnbridge.Prelude.Text.{codes, bytes_eq}
use pwnbridge.Recipe.{new_recipe}
use pwnbridge.Bootstrap.Inventory.{Inventory, empty_inventory}
use pwnbridge.Bootstrap.Plan.{ResolvedPlan}
use pwnbridge.Bootstrap.Plan.Build.{validate_executable}
use pwnbridge.Diagnostics.{
  healthy, plan_check, ptrace_checks, registration, remote_prerequisite_checks,
}
use pwnbridge.Diagnostics.Registered.{Ready, registration-Ready}

abbrev host : Inventory
host = record empty_inventory {
  host = codes "lab";
  os = codes "linux";
  architecture = codes "amd64";
  disk_available_kib = 2000000;
  inodes_available = 5000;
  home_writable = true;
  ptrace_scope = codes "1";
}

abbrev plan : ResolvedPlan
plan = record {
  recipe = new_recipe (codes "ctf") (codes "core" ∷ []);
  inventory = host;
  actions = [];
  steps = [];
  warnings = [];
  blockers = [];
  explanations = [];
  downloads = false;
}

registration-healthy : healthy (registration host plan) ≡ true
unfolding healthy registration remote_prerequisite_checks ptrace_checks plan_check
    validate_executable bytes_eq
registration-healthy = refl

strict_ptrace : healthy (registration (record host { ptrace_scope = codes "3" }) plan) ≡ false
unfolding healthy registration remote_prerequisite_checks ptrace_checks plan_check
    validate_executable bytes_eq
strict_ptrace = refl

registration-Ready_example : Ready host plan
registration-Ready_example = registration-Ready host plan registration-healthy
