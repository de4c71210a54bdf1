-- ===== src/Config/Validate.antt =====
-- internal/config/config.go: Validate, with the problems in the order in which it appends them. A
-- map stands in the order that the loop over it takes; the report is sorted. `quote` is the `%q` of
-- package fmt. The limits of a name and of a value are the source's.
use pwnbridge.Prelude.{
  ℕ, ◌-◌, Bool, true, false, not, ◌&&◌, ◌||◌, List, [], ◌∷◌, ◌++◌, Option, none, some, ltb, leb,
  ◌==◌, if◌then◌else◌, length,
}
use pwnbridge.Prelude.Int.{ℤ, pos, negsuc}
use pwnbridge.Prelude.Map.{Map, map_lookup}
use pwnbridge.Prelude.Text.{Bytes, codes, bytes_eq, has_prefix}
use pwnbridge.Config.Types.{
  Recipe, Host, Global, Project, Effective, global_config_schema, project_config_schema,
}
use pwnbridge.Config.Layers.{ℤ_eq}
use pwnbridge.Config.Names.{
  any, is_empty, is_lower, one_of, unsafe_argument, valid_environment_name, valid_host_name,
  valid_mosh_port, valid_percent, valid_terminal_provider,
}
use pwnbridge.Config.Names.Paths.{escapes_parent, is_abs, path_clean, valid_remote_workspace_root}
use pwnbridge.Recipe.{valid_name, validate_portable}
use pwnbridge.Recipe.Sort.{Check, checks_of, complaints, joined, checks_of}
pub mod Accepted
pub mod Load
mod Tests

abbrev pub differs : Bytes → Bytes → Bool
differs a b = not (bytes_eq a b)

abbrev pub is_positive : ℤ → Bool
is_positive (pos n) = ltb 0 n
is_positive (negsuc n) = false

abbrev upper_byte : ℕ → ℕ
upper_byte c = if is_lower c then c - 32 else c

-- strings.ToUpper on the letters whose upper case is ASCII: a to z, and the dotless i, whose bytes
-- are 0xc4 0xb1. The long s has one too, but `PWNBRIDGE_` has no S.
unfoldable pub to_upper : Bytes → Bytes
to_upper [] = []
to_upper (c ∷ []) = upper_byte c ∷ []
to_upper (c ∷ d ∷ s) =
    let behind = to_upper s in
    let rest = to_upper (d ∷ s) in
    if c == 0xc4 && d == 0xb1 then b'I' ∷ behind else upper_byte c ∷ rest

abbrev pub has_key {ℓ} : {V : Type ℓ} → Map V → Bytes → Bool
has_key m k = elim (map_lookup k m) [ none ↦ false | some v ↦ true ]

unfoldable pub schema_checks : Effective → List Check
schema_checks e =
    (not (ℤ_eq e.global.schema global_config_schema), codes "global schema must be 2")
    ∷ (not (ℤ_eq e.project.schema project_config_schema), codes "project schema must be 1")
    ∷ (differs e.project.target (codes "linux/amd64"), codes "target must be linux/amd64")
    ∷ []

unfoldable pub sync_checks : Global → List Check
sync_checks g =
    (differs g.sync.engine (codes "mutagen"), codes "sync.engine must be mutagen")
    ∷ (differs g.sync.mode (codes "two-way-safe"), codes "sync.mode must be two-way-safe")
    ∷ (differs g.sync.watch_mode (codes "portable"), codes "sync.watch_mode must be portable")
    ∷ (
      differs g.sync.symlink_mode (codes "portable")
          && differs g.sync.symlink_mode (codes "posix-raw"),
      codes "sync.symlink_mode must be portable or posix-raw",
    )
    ∷ (not (is_positive g.sync.barrier_timeout), codes "sync.barrier_timeout must be positive")
    ∷ []

module _ (quote : Bytes → Bytes) where
  unfoldable pub terminal_checks : Global → List Check
  terminal_checks g =
      (
        differs g.terminal.scope (codes "host") && differs g.terminal.scope (codes "remote"),
        codes "terminal.scope must be host or remote",
      )
      ∷ (
        not (valid_terminal_provider g.terminal.provider g.terminal.scope),
        codes "terminal.provider "
            ++ quote g.terminal.provider
            ++ codes " is invalid for "
            ++ g.terminal.scope
            ++ codes " scope",
      )
      ∷ (
        not (
            one_of g.terminal.placement (
              codes "right" ∷ codes "down" ∷ codes "tab" ∷ codes "floating" ∷ codes "window" ∷ [])),
        codes "terminal.placement must be right, down, tab, floating, or window",
      )
      ∷ (
        bytes_eq g.terminal.scope (codes "remote")
            && not (one_of g.terminal.placement (codes "right" ∷ codes "down" ∷ [])),
        codes "remote terminal scope supports only right or down placement",
      )
      ∷ (
        not (valid_percent g.terminal.size),
        codes "terminal.size must be a percentage between 1% and 99%",
      )
      ∷ (
        not (one_of g.terminal.zellij.direction (codes "right" ∷ codes "down" ∷ [])),
        codes "terminal.zellij.direction must be right or down",
      )
      ∷ (
        not (
            one_of g.terminal.tmux.direction
              (codes "horizontal" ∷ codes "vertical" ∷ codes "right" ∷ codes "down" ∷ [])),
        codes "terminal.tmux.direction must be horizontal, vertical, right, or down",
      )
      ∷ (
        not (valid_percent g.terminal.tmux.size),
        codes "terminal.tmux.size must be a percentage between 1% and 99%",
      )
      ∷ []

  unfoldable pub variable_checks : Bytes × Bytes → List Check
  variable_checks (key, value) =
      (
        not (valid_environment_name key),
        codes "environment.set key " ++ quote key ++ codes " is invalid",
      )
      ∷ (
        has_prefix (to_upper key) (codes "PWNBRIDGE_"),
        codes "environment.set key " ++ quote key ++ codes " uses the reserved PWNBRIDGE_ prefix",
      )
      ∷ (
        ltb 65536 (length value) || any (λ c. c == 0) value,
        codes "environment.set value for " ++ quote key ++ codes " is invalid",
      )
      ∷ []

  unfoldable pub project_checks : Project → List Check
  project_checks p =
      (
        is_abs p.workspace.root || escapes_parent p.workspace.root,
        codes "workspace.root must remain inside the project directory",
      )
        ∷ (differs p.shell.command (codes "bash"), codes "shell.command must be bash")
        ∷ (differs p.environment.profile (codes "pwn"), codes "environment.profile must be pwn")
        ∷ []
      ++ checks_of variable_checks p.environment.variables

  unfoldable pub runtime_checks : Bytes → Project → List Check
  runtime_checks scope p =
      (
        differs p.runtime.kind (codes "host") && differs p.runtime.kind (codes "container"),
        codes "runtime.kind must be host or container",
      )
        ∷ (
          bytes_eq p.runtime.kind (codes "container") && is_empty p.runtime.container.image,
          codes "runtime.container.image is required for container runtime",
        )
        ∷ []
      ++ (if bytes_eq p.runtime.kind (codes "container")
          then (
            not (
                one_of p.runtime.container.engine
                  (codes "auto" ∷ codes "docker" ∷ codes "podman" ∷ [])),
            codes "runtime.container.engine must be auto, docker, or podman",
          )
            ∷ (
              unsafe_argument p.runtime.container.image 512,
              codes "runtime.container.image contains unsafe characters",
            )
            ∷ (
              differs (path_clean p.runtime.container.workdir) (codes "/work")
                  && not (has_prefix (path_clean p.runtime.container.workdir) (codes "/work/")),
              codes "runtime.container.workdir must be /work or a directory beneath /work",
            )
            ∷ (
              unsafe_argument p.runtime.container.network 128,
              codes "runtime.container.network contains unsafe characters",
            )
            ∷ (
              bytes_eq scope (codes "remote"),
              codes "remote terminal scope is incompatible with container runtime",
            )
            ∷ []
          else [])

  unfoldable pub host_checks : Map Recipe → Bytes × Host → List Check
  host_checks recipes (name, host) =
      let field = codes "hosts." ++ name in
      (not (valid_host_name name), codes "invalid host name " ++ quote name)
      ∷ (is_empty host.destination, field ++ codes ".destination is required")
      ∷ (
        unsafe_argument host.destination 512,
        field ++ codes ".destination contains unsafe characters",
      )
      ∷ (
        differs host.platform (codes "linux/amd64"),
        field ++ codes ".platform must be linux/amd64",
      )
      ∷ (
        not (is_empty host.workspace_root) && not (valid_remote_workspace_root host.workspace_root),
        field ++ codes ".workspace_root must be a safe ~/... or absolute path",
      )
      ∷ (
        not (is_empty host.bootstrap_profile)
            && differs host.bootstrap_profile (codes "pwn")
            && differs host.bootstrap_profile (codes "minimal")
            && not (has_key recipes host.bootstrap_profile),
        field
            ++ codes ".bootstrap_profile references unknown recipe "
            ++ quote host.bootstrap_profile,
      )
      ∷ (
        not (is_empty host.shell_transport)
            && not (one_of host.shell_transport (codes "auto" ∷ codes "ssh" ∷ codes "mosh" ∷ [])),
        field ++ codes ".shell_transport must be auto, ssh, or mosh",
      )
      ∷ (
        not (is_empty host.mosh_port) && not (valid_mosh_port host.mosh_port),
        field ++ codes ".mosh_port must be a UDP port or ascending range",
      )
      ∷ []

  unfoldable pub portable_checks : Bytes → Option Bytes → List Check
  portable_checks name none = []
  portable_checks name (some problem) =
      (true, codes "bootstrap recipe " ++ quote name ++ codes ": " ++ problem) ∷ []

  unfoldable pub profile_checks : Bytes × Recipe → List Check
  profile_checks (name, value) =
      if not (valid_name name)
      then (true, codes "invalid bootstrap recipe name " ++ quote name) ∷ []
      else (
        bytes_eq name (codes "pwn") || bytes_eq name (codes "minimal"),
        codes "bootstrap recipe " ++ quote name ++ codes " shadows a built-in",
      )
          ∷ (
            differs value.name name,
            codes "bootstrap recipe "
                ++ quote name
                ++ codes " has mismatched embedded name "
                ++ quote value.name,
          )
          ∷ []
        ++ portable_checks name (validate_portable quote value)

  unfoldable pub host_choice_checks : Effective → List Check
  host_choice_checks e =
      (
        not (is_empty e.selected_host) && not (has_key e.global.hosts e.selected_host),
        codes "selected host " ++ quote e.selected_host ++ codes " is not configured",
      )
      ∷ []

  unfoldable pub checks : Effective → List Check
  checks e =
      schema_checks e
      ++ sync_checks e.global
      ++ terminal_checks e.global
      ++ project_checks e.project
      ++ runtime_checks e.global.terminal.scope e.project
      ++ host_choice_checks e
      ++ checks_of (host_checks e.global.bootstrap_profiles) e.global.hosts
      ++ checks_of profile_checks e.global.bootstrap_profiles

  unfoldable pub validate : Effective → Option Bytes
  validate e = joined (complaints (checks e))
