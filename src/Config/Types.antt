-- ===== src/Config/Types.antt =====
-- internal/config/config.go: the configuration, and its defaults. Durations count nanoseconds.
use pwnbridge.Prelude.{Bool, true, false, List, []}
use pwnbridge.Prelude.Int.{ℤ, pos}
use pwnbridge.Prelude.Map.{Map}
use pwnbridge.Prelude.Text.{Bytes, codes}

-- internal/bootstrap/recipe/recipe.go
pub record Recipe : Type 0 where
  pub schema : ℤ
  pub name : Bytes
  pub components : List Bytes
  pub system_packages : List Bytes
  pub pip_packages : List Bytes

pub record Host : Type 0 where
  pub destination : Bytes
  pub platform : Bytes
  pub workspace_root : Bytes
  pub bootstrap_profile : Bytes
  pub shell_transport : Bytes
  pub mosh_port : Bytes

pub record Sync : Type 0 where
  pub engine : Bytes
  pub mode : Bytes
  pub watch_mode : Bytes
  pub symlink_mode : Bytes
  pub pause_on_idle : Bool
  pub barrier_timeout : ℤ
  pub barrier_text : Bytes

pub record ZellijTerminal : Type 0 where
  pub near_current_pane : Bool
  pub direction : Bytes
  pub floating : Bool

pub record TmuxTerminal : Type 0 where
  pub direction : Bytes
  pub size : Bytes

pub record Terminal : Type 0 where
  pub provider : Bytes
  pub scope : Bytes
  pub placement : Bytes
  pub size : Bytes
  pub focus : Bool
  pub close_on_success : Bool
  pub hold_on_failure : Bool
  pub zellij : ZellijTerminal
  pub tmux : TmuxTerminal

pub record Container : Type 0 where
  pub engine : Bytes
  pub image : Bytes
  pub workdir : Bytes
  pub network : Bytes

pub record Runtime : Type 0 where
  pub kind : Bytes
  pub container : Container

pub record Workspace : Type 0 where
  pub root : Bytes
  pub ignore : List Bytes

pub record Environment : Type 0 where
  pub profile : Bytes
  pub variables : Map Bytes  -- Set

pub record Shell : Type 0 where
  pub command : Bytes
  pub source_user_rc : Bool

pub record Global : Type 0 where
  pub schema : ℤ
  pub default_host : Bytes
  pub hosts : Map Host
  pub sync : Sync
  pub terminal : Terminal
  pub runtime : Runtime
  pub bootstrap_profiles : Map Recipe

pub record Project : Type 0 where
  pub schema : ℤ
  pub target : Bytes
  pub workspace : Workspace
  pub environment : Environment
  pub shell : Shell
  pub runtime : Runtime

pub record Effective : Type 0 where
  pub global : Global
  pub project : Project
  pub global_path : Bytes
  pub project_path : Bytes
  pub project_root : Bytes
  pub selected_host : Bytes
  pub mutagen_path : Bytes
  pub agent_path : Bytes
  pub log_level : Bytes

abbrev pub global_config_schema : ℤ
global_config_schema = pos 2

abbrev pub project_config_schema : ℤ
project_config_schema = pos 1

-- 2 * time.Minute
abbrev pub two_minutes : ℤ
two_minutes = pos 120_000_000_000

unfoldable pub default_runtime : Runtime
default_runtime = record {
  kind = codes "host";
  container = record {
    engine = codes "auto";
    image = [];
    workdir = codes "/work";
    network = codes "bridge";
  };
}

unfoldable pub default_global : Global
unfolding default_runtime
default_global = record {
  schema = global_config_schema;
  default_host = [];
  hosts = [];
  sync = record {
    engine = codes "mutagen";
    mode = codes "two-way-safe";
    watch_mode = codes "portable";
    symlink_mode = codes "portable";
    pause_on_idle = false;
    barrier_timeout = two_minutes;
    barrier_text = codes "2m";
  };
  terminal = record {
    provider = codes "auto";
    scope = codes "host";
    placement = codes "right";
    size = codes "50%";
    focus = true;
    close_on_success = true;
    hold_on_failure = true;
    zellij = record { near_current_pane = true; direction = codes "right"; floating = false };
    tmux = record { direction = codes "horizontal"; size = codes "50%" };
  };
  runtime = default_runtime;
  bootstrap_profiles = [];
}

unfoldable pub default_project : Project
unfolding default_runtime
default_project = record {
  schema = project_config_schema;
  target = codes "linux/amd64";
  workspace = record { root = codes "."; ignore = [] };
  environment = record { profile = codes "pwn"; variables = [] };
  shell = record { command = codes "bash"; source_user_rc = true };
  runtime = default_runtime;
}

unfoldable pub defaults : Effective
unfolding default_global default_project
defaults = record {
  global = default_global;
  project = default_project;
  global_path = [];
  project_path = [];
  project_root = [];
  selected_host = [];
  mutagen_path = codes "mutagen";
  agent_path = [];
  log_level = codes "info";
}
