-- ===== src/Config/Validate/Tests.antt =====
-- Witnesses of the theorems on configurations.
use pwnbridge.Prelude.{true, false, [], ◌∷◌, ◌==◌, Option, none, some, ◌≡◌, ◌⊎◌, inl, refl}
use pwnbridge.Prelude.Int.{ℤ}
use pwnbridge.Prelude.Result.{Result, ok, err}
use pwnbridge.Prelude.Text.{Bytes, codes, atoi, has_prefix, bytes_eq}
use pwnbridge.Prelude.Map.{map_lookup}
use pwnbridge.Config.Types.{
  Host, Global, Effective, Runtime, default_global, default_project, default_runtime, defaults,
}
use pwnbridge.Config.Layers.{GlobalLayer, ProjectLayer, RuntimeLayer, ℤ_eq}
use pwnbridge.Config.Names.{
  any, one_of, unsafe_argument, unsafe_byte, split, trim_suffix, valid_custom_name,
  valid_environment_name, environment_bytes, environment_first, environment_later, valid_host_name,
  host_name_byte, valid_mosh_port, mosh_ports, mosh_port, itoa_port, itoa_digits, valid_percent,
  valid_terminal_provider,
}
use pwnbridge.Config.Names.Paths.{
  clean_part, clean_parts, elements, render, escapes_parent, is_abs, path_clean, valid_home_path,
  valid_remote_workspace_root,
}
use pwnbridge.Config.Names.Paths.Inside.{NoParent, escapes_parent-NoParent}
use pwnbridge.Config.Validate.{
  checks, schema_checks, sync_checks, terminal_checks, variable_checks, project_checks,
  runtime_checks, host_choice_checks, host_checks, profile_checks, to_upper, validate,
}
use pwnbridge.Config.Validate.Accepted.{validate-hosts, validate-variables, validate-container}
use pwnbridge.Config.Validate.Load.{Environ, FileAnswer, content, workspace_root, empty_global}
use pwnbridge.Config.Validate.Load.Loaded.{Loaded}
use pwnbridge.Recipe.Sort.{complaints, joined}

abbrev plain : Bytes → Bytes
plain s = s

abbrev ctf : Host
ctf = record {
  destination = codes "me@ctf";
  platform = codes "linux/amd64";
  workspace_root = codes "~/w";
  bootstrap_profile = codes "pwn";
  shell_transport = codes "mosh";
  mosh_port = codes "60001:60002";
}

abbrev boxed : Runtime
boxed = record {
  kind = codes "container";
  container = record {
    engine = codes "docker";
    image = codes "pwn:1";
    workdir = codes "/work/a";
    network = codes "none";
  };
}

abbrev ctf_global : Global
ctf_global = record default_global { default_host = codes "ctf"; hosts = (codes "ctf", ctf) ∷ [] }

-- A configuration with a host, a variable and a container.
abbrev config : Effective
config = record defaults {
  global = record default_global { default_host = codes "ctf"; hosts = (codes "ctf", ctf) ∷ [] };
  project = record default_project {
    environment = record { profile = codes "pwn"; variables = (codes "LC", codes "C") ∷ [] };
    runtime = boxed;
  };
  selected_host = codes "ctf";
}

config_passes : validate plain config ≡ none
unfolding validate checks joined complaints schema_checks sync_checks terminal_checks project_checks
    runtime_checks host_choice_checks host_checks profile_checks variable_checks default_global
    default_project default_runtime defaults ℤ_eq bytes_eq has_prefix atoi to_upper map_lookup
    one_of unsafe_argument unsafe_byte split trim_suffix valid_custom_name valid_environment_name
    environment_bytes environment_first environment_later valid_host_name host_name_byte
    valid_mosh_port mosh_ports mosh_port itoa_port itoa_digits valid_percent valid_terminal_provider
    clean_part clean_parts elements render escapes_parent is_abs path_clean valid_home_path
    valid_remote_workspace_root
config_passes = refl

in_project : is_abs (codes "a/../b") ≡ false
unfolding is_abs
in_project = refl

stays : escapes_parent (codes "a/../b") ≡ false
unfolding escapes_parent path_clean elements clean_parts clean_part render is_abs split bytes_eq
    has_prefix
stays = refl

abbrev kind_layer : RuntimeLayer
kind_layer = record { kind = some (codes "container"); container = none }

abbrev image_layer : RuntimeLayer
image_layer = record {
  kind = none;
  container =
      some (record { engine = none; image = some (codes "pwn"); workdir = none; network = none });
}

-- The environment asks for the host runtime and for another host than the default host of the global
-- file.
abbrev environ : Environ
environ = record {
  config = [];
  host = codes "lab";
  mutagen_path = [];
  agent_path = [];
  log = [];
  runtime = codes "host";
}

abbrev no_duration : Bytes → Option ℤ
no_duration s = none

abbrev read : Bytes → FileAnswer
read path = content []

abbrev global_file : Bytes → Result Bytes GlobalLayer
global_file text = ok (record empty_global {
  default_host = some (codes "ctf");
  hosts = some ((codes "ctf", ctf) ∷ (codes "lab", ctf) ∷ []);
})

abbrev project_file : Bytes → Result Bytes ProjectLayer
project_file text = err []

abbrev nowhere : Bytes → Result Bytes (Bytes × Bytes)
nowhere cwd = ok ([], cwd)

abbrev no_links : Bytes → Result Bytes Bytes
no_links path = ok path

abbrev no_relative : Bytes → Bytes → Option Bytes
no_relative base target = none

abbrev loaded : Effective
loaded = record defaults {
  global = record default_global {
    default_host = codes "ctf";
    hosts = (codes "ctf", ctf) ∷ (codes "lab", ctf) ∷ [];
  };
  global_path = codes "/c/config.toml";
  project_root = codes "/w";
  selected_host = codes "lab";
}

validate-hosts_example :
    (valid_host_name (codes "ctf") ≡ true)
    × (unsafe_argument ctf.destination 512 ≡ false)
    × (ctf.platform ≡ codes "linux/amd64")
    × ((ctf.workspace_root ≡ []) ⊎ (valid_remote_workspace_root ctf.workspace_root ≡ true))
    × ((ctf.mosh_port ≡ []) ⊎ (valid_mosh_port ctf.mosh_port ≡ true))
unfolding defaults default_global
validate-hosts_example = validate-hosts plain config (codes "ctf") ctf config_passes (inl refl)

validate-variables_example :
    (valid_environment_name (codes "LC") ≡ true)
    × (has_prefix (to_upper (codes "LC")) (codes "PWNBRIDGE_") ≡ false)
    × (any (λ c. c == 0) (codes "C") ≡ false)
unfolding defaults default_project
validate-variables_example =
    validate-variables plain config (codes "LC") (codes "C") config_passes (inl refl)

validate-container_example :
    (unsafe_argument config.project.runtime.container.image 512 ≡ false)
    × (unsafe_argument config.project.runtime.container.network 128 ≡ false)
    × ((path_clean config.project.runtime.container.workdir ≡ codes "/work")
        ⊎ (has_prefix (path_clean config.project.runtime.container.workdir) (codes "/work/")
            ≡ true))
    × (bytes_eq config.global.terminal.scope (codes "remote") ≡ false)
unfolding defaults default_project
validate-container_example = validate-container plain config config_passes refl

escapes_parent-NoParent_example : NoParent (elements (codes "a/../b"))
escapes_parent-NoParent_example = escapes_parent-NoParent (codes "a/../b") in_project stays
