-- ===== src/Config/Layers.antt =====
-- internal/config/config.go: the layers that a configuration file gives, and what each does to the
-- configuration below it. A pointer or a map that is nil is `none`. Durations are read by
-- time.ParseDuration, which is an argument.
use pwnbridge.Prelude.{
  ◌||◌, ℕ, Bool, true, false, List, [], ◌∷◌, ◌++◌, Option, none, some, if◌then◌else◌, ◌==◌, ◌≡◌,
  refl,
}
use pwnbridge.Prelude.Int.{ℤ, pos, negsuc}
use pwnbridge.Prelude.Map.{Map, map_merge}
use pwnbridge.Prelude.Result.{Result, ok, err, ◌>>=◌}
use pwnbridge.Prelude.Text.{Bytes, codes}
use pwnbridge.Config.Types.{
  Recipe, Host, Sync, ZellijTerminal, TmuxTerminal, Terminal, Container, Runtime, Workspace,
  Environment, Shell, Global, Project, Effective, global_config_schema, project_config_schema,
}
pub mod Precedence

pub record SyncLayer : Type 0 where
  pub engine : Option Bytes
  pub mode : Option Bytes
  pub watch_mode : Option Bytes
  pub symlink_mode : Option Bytes
  pub pause_on_idle : Option Bool
  pub barrier_timeout : Option Bytes

pub record ZellijTerminalLayer : Type 0 where
  pub near_current_pane : Option Bool
  pub direction : Option Bytes
  pub floating : Option Bool

pub record TmuxTerminalLayer : Type 0 where
  pub direction : Option Bytes
  pub size : Option Bytes

pub record TerminalLayer : Type 0 where
  pub provider : Option Bytes
  pub scope : Option Bytes
  pub placement : Option Bytes
  pub size : Option Bytes
  pub focus : Option Bool
  pub close_on_success : Option Bool
  pub hold_on_failure : Option Bool
  pub zellij : Option ZellijTerminalLayer
  pub tmux : Option TmuxTerminalLayer

pub record ContainerLayer : Type 0 where
  pub engine : Option Bytes
  pub image : Option Bytes
  pub workdir : Option Bytes
  pub network : Option Bytes

pub record RuntimeLayer : Type 0 where
  pub kind : Option Bytes
  pub container : Option ContainerLayer

pub record WorkspaceLayer : Type 0 where
  pub root : Option Bytes
  pub ignore : Option (List Bytes)

pub record EnvironmentLayer : Type 0 where
  pub profile : Option Bytes
  pub variables : Option (Map Bytes)  -- Set

pub record ShellLayer : Type 0 where
  pub command : Option Bytes
  pub source_user_rc : Option Bool

pub record GlobalLayer : Type 0 where
  pub schema : Option ℤ
  pub default_host : Option Bytes
  pub hosts : Option (Map Host)
  pub sync : Option SyncLayer
  pub terminal : Option TerminalLayer
  pub runtime : Option RuntimeLayer
  pub bootstrap_profiles : Option (Map Recipe)

pub record ProjectLayer : Type 0 where
  pub schema : Option ℤ
  pub target : Option Bytes
  pub workspace : Option WorkspaceLayer
  pub environment : Option EnvironmentLayer
  pub shell : Option ShellLayer
  pub runtime : Option RuntimeLayer

pub data LayerError : Type 0 where
  unsupported_schema : ℤ → LayerError
  invalid_barrier_timeout : LayerError

-- `if src.Field != nil { dst.Field = *src.Field }`
abbrev pub override {ℓ} : {A : Type ℓ} → Option A → A → A
override none a = a
override (some b) a = b

unfoldable pub ℤ_eq : ℤ → ℤ → Bool
ℤ_eq (pos a) (pos b) = a == b
ℤ_eq (negsuc a) (negsuc b) = a == b
ℤ_eq _ _ = false

unfoldable pub apply_zellij : ZellijTerminal → ZellijTerminalLayer → ZellijTerminal
apply_zellij dst src = record {
  near_current_pane = override src.near_current_pane dst.near_current_pane;
  direction = override src.direction dst.direction;
  floating = override src.floating dst.floating;
}

unfoldable pub apply_tmux : TmuxTerminal → TmuxTerminalLayer → TmuxTerminal
apply_tmux dst src = record {
  direction = override src.direction dst.direction;
  size = override src.size dst.size;
}

-- A nested layer that is absent leaves its part as it is.
abbrev pub within {ℓ κ} : {A : Type ℓ} {L : Type κ} → (A → L → A) → A → Option L → A
within f dst none = dst
within f dst (some src) = f dst src

unfoldable pub apply_terminal : Terminal → TerminalLayer → Terminal
unfolding apply_zellij apply_tmux
apply_terminal dst src = record {
  provider = override src.provider dst.provider;
  scope = override src.scope dst.scope;
  placement = override src.placement dst.placement;
  size = override src.size dst.size;
  focus = override src.focus dst.focus;
  close_on_success = override src.close_on_success dst.close_on_success;
  hold_on_failure = override src.hold_on_failure dst.hold_on_failure;
  zellij = within apply_zellij dst.zellij src.zellij;
  tmux = within apply_tmux dst.tmux src.tmux;
}

unfoldable pub apply_container : Container → ContainerLayer → Container
apply_container dst src = record {
  engine = override src.engine dst.engine;
  image = override src.image dst.image;
  workdir = override src.workdir dst.workdir;
  network = override src.network dst.network;
}

unfoldable pub apply_runtime : Runtime → RuntimeLayer → Runtime
unfolding apply_container
apply_runtime dst src = record {
  kind = override src.kind dst.kind;
  container = within apply_container dst.container src.container;
}

module _ (parse_duration : Bytes → Option ℤ) where
  -- The duration and its text change together, and only if the text is one.
  unfoldable pub apply_barrier : Sync → Option Bytes → Result LayerError Sync
  apply_barrier dst none = ok dst
  apply_barrier dst (some text) = elim (parse_duration text) [
    | none ↦ err invalid_barrier_timeout
    | some d ↦ ok (record dst { barrier_timeout = d; barrier_text = text })
  ]

  unfoldable pub apply_sync : Sync → SyncLayer → Result LayerError Sync
  apply_sync dst src =
      apply_barrier
        (record dst {
          engine = override src.engine dst.engine;
          mode = override src.mode dst.mode;
          watch_mode = override src.watch_mode dst.watch_mode;
          symlink_mode = override src.symlink_mode dst.symlink_mode;
          pause_on_idle = override src.pause_on_idle dst.pause_on_idle;
        })
        src.barrier_timeout

  abbrev pub apply_some_sync : Sync → Option SyncLayer → Result LayerError Sync
  apply_some_sync dst none = ok dst
  apply_some_sync dst (some src) = apply_sync dst src

  -- Schema 1 is upgraded in memory.
  unfoldable pub global_schema : ℤ → Option ℤ → Result LayerError ℤ
  global_schema dst none = ok dst
  global_schema dst (some s) =
      if ℤ_eq s (pos 1) || ℤ_eq s global_config_schema
      then ok global_config_schema
      else err (unsupported_schema s)

  unfoldable pub apply_global : Global → GlobalLayer → Result LayerError Global
  apply_global dst src = do
    schema ← global_schema dst.schema src.schema
    sync ← apply_some_sync dst.sync src.sync
    ok (record {
      schema = schema;
      default_host = override src.default_host dst.default_host;
      hosts = within map_merge dst.hosts src.hosts;
      sync = sync;
      terminal = within apply_terminal dst.terminal src.terminal;
      runtime = within apply_runtime dst.runtime src.runtime;
      bootstrap_profiles = within map_merge dst.bootstrap_profiles src.bootstrap_profiles;
    })

unfoldable pub project_schema : ℤ → Option ℤ → Result LayerError ℤ
project_schema dst none = ok dst
project_schema dst (some s) =
    if ℤ_eq s project_config_schema then ok s else err (unsupported_schema s)

unfoldable pub apply_workspace : Workspace → WorkspaceLayer → Workspace
apply_workspace dst src = record {
  root = override src.root dst.root;
  ignore = override src.ignore dst.ignore;
}

unfoldable pub apply_project_environment : Environment → EnvironmentLayer → Environment
apply_project_environment dst src = record {
  profile = override src.profile dst.profile;
  variables = override src.variables dst.variables;
}

unfoldable pub apply_shell : Shell → ShellLayer → Shell
apply_shell dst src = record {
  command = override src.command dst.command;
  source_user_rc = override src.source_user_rc dst.source_user_rc;
}

unfoldable pub apply_project : Project → ProjectLayer → Result LayerError Project
apply_project dst src = do
  schema ← project_schema dst.schema src.schema
  ok (record {
    schema = schema;
    target = override src.target dst.target;
    workspace = within apply_workspace dst.workspace src.workspace;
    environment = within apply_project_environment dst.environment src.environment;
    shell = within apply_shell dst.shell src.shell;
    runtime = within apply_runtime dst.runtime src.runtime;
  })
