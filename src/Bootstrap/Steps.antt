-- ===== src/Bootstrap/Steps.antt =====
-- internal/bootstrap/planner.go: the commands of a plan.
use pwnbridge.Prelude.{
  Bool, true, false, ◌||◌, List, [], ◌∷◌, ◌++◌, Option, none, some, ◌==◌, if◌then◌else◌, length,
}
use pwnbridge.Prelude.Map.{Map}
use pwnbridge.Prelude.Text.{Bytes, codes, bytes_eq, has_prefix}
use pwnbridge.Config.Validate.{differs}
use pwnbridge.Bootstrap.Names.{
  words, manager_apt, manager_dnf, manager_yum, manager_pacman, manager_zypper, manager_apk,
  manager_xbps, manager_emerge, manager_nix, component_pwntools, component_pwndbg, component_docker,
}
use pwnbridge.Bootstrap.Inventory.{Inventory}

abbrev pub pwndbg_version : Bytes
pwndbg_version = codes "2026.02.18"

abbrev pub pwndbg_url : Bytes
pwndbg_url =
    codes "https://github.com/pwndbg/pwndbg/releases/download/"
    ++ pwndbg_version
    ++ codes "/pwndbg_"
    ++ pwndbg_version
    ++ codes "_x86_64-portable.tar.xz"

abbrev pub pwndbg_sha256 : Bytes
pwndbg_sha256 = codes "eeb93972d7910bf8233abf296b00577efb7137d94655502985566a328e5cecce"

pub record Step : Type 0 where
  pub id : Bytes
  pub component : Bytes
  pub description : Bytes
  pub argv : List Bytes
  pub environment : Map Bytes
  pub sudo : Bool
  pub network : Bool
  pub verify_argv : List Bytes

-- A step without an environment.
abbrev pub step_of : Bytes → Bytes → Bytes → List Bytes → Bool → Bool → Step
step_of id component description argv sudo network = record {
  id = id;
  component = component;
  description = description;
  argv = argv;
  environment = [];
  sudo = sudo;
  network = network;
  verify_argv = [];
}

unfoldable pub prefixed : List Bytes → Bytes → List Bytes
prefixed [] prefix = []
prefixed (value ∷ values) prefix =
    (if has_prefix value (codes "nixpkgs.") then value else prefix ++ value)
    ∷ prefixed values prefix

abbrev system : Bytes
system = codes "system"

unfoldable pub refresh_steps : Bytes → List Step
refresh_steps manager =
    if bytes_eq manager manager_apt
    then step_of (codes "packages-repair") system (codes "Repair an interrupted dpkg transaction")
        (words "dpkg --configure -a") true false
      ∷ step_of (codes "packages-refresh") system (codes "Refresh apt metadata")
          (words "apt-get update") true true
      ∷ []
    else if bytes_eq manager manager_zypper
    then step_of (codes "packages-refresh") system (codes "Refresh zypper metadata")
        (words "zypper --non-interactive refresh") true true
      ∷ []
    else []

-- The command before the packages, for each manager but Nix.
abbrev install_commands : List (Bytes × List Bytes)
install_commands =
    (manager_apt, words "apt-get -o DPkg::Lock::Timeout=120 install -y")
    ∷ (manager_dnf, words "dnf install -y")
    ∷ (manager_yum, words "yum install -y")
    ∷ (manager_pacman, words "pacman -Sy --needed --noconfirm")
    ∷ (manager_zypper, words "zypper --non-interactive install --no-recommends")
    ∷ (manager_apk, words "apk add")
    ∷ (manager_xbps, words "xbps-install -S -y")
    ∷ (manager_emerge, words "emerge --ask=n --nospinner")
    ∷ []

abbrev command_for : Bytes → List (Bytes × List Bytes) → Option (List Bytes)
command_for manager [] = none
command_for manager ((name, command) ∷ others) =
    let rest = command_for manager others in if bytes_eq manager name then some command else rest

-- A manager that the switch does not have gets no command at all.
unfoldable pub install_argv : Bytes → List Bytes → List Bytes
install_argv manager packages =
    if bytes_eq manager manager_nix
    then words "nix-env -iA" ++ prefixed packages (codes "nixpkgs.")
    else elim (command_for manager install_commands) [
      | none ↦ []
      | some command ↦ command ++ packages
    ]

unfoldable pub install_step : Bytes → List Bytes → Step
install_step manager packages = record {
  id = codes "packages-install";
  component = system;
  description = codes "Install mapped system packages";
  argv = install_argv manager packages;
  environment =
      if bytes_eq manager manager_apt
      then (codes "DEBIAN_FRONTEND", codes "noninteractive") ∷ []
      else [];
  sudo = differs manager manager_nix;
  network = true;
  verify_argv = [];
}

unfoldable pub package_steps : Bytes → List Bytes → List Step × Step
package_steps manager packages = (refresh_steps manager, install_step manager packages)

abbrev pwn_root : Bytes
pwn_root = codes "$HOME/.local/share/pwnbridge/envs/pwn-v1"

unfoldable pub pwntools_steps : List Bytes → List Step
pwntools_steps extra =
    step_of (codes "pwntools-venv") component_pwntools
        (codes "Create or repair managed Python environment")
        (words "python3 -m venv --system-site-packages" ++ pwn_root ∷ []) false false
      ∷ step_of (codes "pwntools-base") component_pwntools (codes "Install pinned pwntools")
          ((pwn_root ++ codes "/bin/pip") ∷ words "install --upgrade pip wheel pwntools==4.15.0")
          false true
      ∷ []
    ++ (if length extra == 0
        then []
        else step_of (codes "pip-extra") component_pwntools (codes "Install extra pip requirements")
            ((pwn_root ++ codes "/bin/pip") ∷ codes "install" ∷ extra) false true
          ∷ [])
    ++ step_of (codes "pip-check") component_pwntools (codes "Verify Python dependencies")
        ((pwn_root ++ codes "/bin/pip") ∷ codes "check" ∷ []) false false
      ∷ step_of (codes "pwntools-verify") component_pwntools (codes "Verify pinned pwntools")
          ((pwn_root ++ codes "/bin/python")
            ∷ codes "-c"
            ∷ codes "import importlib.metadata as m; assert m.version(\"pwntools\") == \"4.15.0\""
            ∷ [])
          false false
      ∷ []

unfoldable pub pwndbg_steps : List Step
pwndbg_steps =
    step_of (codes "pwndbg-install") component_pwndbg (codes "Install verified portable Pwndbg")
      (codes "pwnbridge-internal-pwndbg-install" ∷ pwndbg_version ∷ pwndbg_url ∷ pwndbg_sha256 ∷ [])
      false true
    ∷ []

unfoldable pub service_steps : Bytes → List Step
service_steps manager =
    if bytes_eq manager (codes "systemd")
    then step_of (codes "docker-service") component_docker (codes "Enable and start Docker")
        (words "systemctl enable --now docker") true false
      ∷ []
    else if bytes_eq manager (codes "openrc")
    then step_of (codes "docker-enable") component_docker (codes "Enable Docker with OpenRC")
        (words "rc-update add docker default") true false
      ∷ step_of (codes "docker-service") component_docker (codes "Start Docker with OpenRC")
          (words "rc-service docker start") true false
      ∷ []
    else if bytes_eq manager (codes "sysv")
    then step_of (codes "docker-service") component_docker (codes "Start Docker service")
        (words "service docker start") true false
      ∷ []
    else []

abbrev pub docker_group : Step
docker_group =
    step_of (codes "docker-group") component_docker
      (codes "Add current user to root-equivalent Docker group") (words "usermod -aG docker $USER")
      true false

unfoldable pub docker_setup_steps : Inventory → List Step
docker_setup_steps inventory =
    service_steps inventory.service_manager ++ (if inventory.root then [] else docker_group ∷ [])

unfoldable pub filter_user_steps : List Step → List Step
filter_user_steps [] = []
filter_user_steps (step ∷ steps) =
    let rest = filter_user_steps steps in if step.sudo then rest else step ∷ rest

unfoldable pub has_sudo_steps : List Step → Bool
has_sudo_steps [] = false
has_sudo_steps (step ∷ steps) = step.sudo || has_sudo_steps steps
