-- ===== src/Config/Validate/Load/Loaded.antt =====
-- What Load gives: a configuration that Validate takes, with its settings in their order.
use pwnbridge.Prelude.{◌≢◌, ◌⊎◌, [], Option, none, ◌≡◌}
use pwnbridge.Prelude.Int.{ℤ}
use pwnbridge.Prelude.Result.{Result, ok}
use pwnbridge.Prelude.Text.{Bytes, codes}
use pwnbridge.Config.Types.{Effective, Global, Project, defaults}
use pwnbridge.Config.Layers.{GlobalLayer, ProjectLayer}
use pwnbridge.Config.Validate.{validate}
use pwnbridge.Config.Validate.Load.{
  Environ, FileAnswer, LoadError, global_path_of, load_global_layer, load_project_layer, path_join,
  workspace_root,
}

-- What a setting is: `set` unless that is empty, and then `below`.
abbrev pub Overrides : Bytes → Bytes → Bytes → Type 0
Overrides set below result = ((set ≢ []) × (result ≡ set)) ⊎ ((set ≡ []) × (result ≡ below))

module _ (quote : Bytes → Bytes) (parse_duration : Bytes → Option ℤ)
    (read_file : Bytes → FileAnswer) (decode_global : Bytes → Result Bytes GlobalLayer)
    (decode_project : Bytes → Result Bytes ProjectLayer)
    (find_project : Bytes → Result Bytes (Bytes × Bytes))
    (eval_symlinks : Bytes → Result Bytes Bytes) (relative_to : Bytes → Bytes → Option Bytes) where
  abbrev global_of : Environ → Bytes → Result LoadError Global
  global_of env config_dir =
      load_global_layer quote parse_duration read_file decode_global decode_project find_project
        eval_symlinks relative_to
        (global_path_of quote parse_duration read_file decode_global decode_project find_project
          eval_symlinks relative_to env config_dir)

  abbrev project_of : Global → Bytes × Bytes → Result LoadError Project
  project_of global found =
      load_project_layer quote parse_duration read_file decode_global decode_project find_project
        eval_symlinks relative_to found.0 (record defaults.project { runtime = global.runtime })

  abbrev root_of : Bytes × Bytes → Project → Result LoadError Bytes
  root_of found project =
      workspace_root quote parse_duration read_file decode_global decode_project find_project
        eval_symlinks relative_to found.1 project.workspace.root

  -- A configuration that Load made of the layers `global` and `project`.
  pub record Loaded (env : Environ) (config_dir cwd : Bytes) (e : Effective) : Type 0 where
    found : Bytes × Bytes
    project : Project
    path : Overrides env.config (path_join config_dir (codes "config.toml")) e.global_path
    global_layer :
        load_global_layer quote parse_duration read_file decode_global decode_project find_project
          eval_symlinks relative_to e.global_path
        ≡ ok e.global
    search : find_project cwd ≡ ok found
    project_layer : project_of e.global found ≡ ok project
    root : root_of found project ≡ ok e.project_root
    host : Overrides env.host e.global.default_host e.selected_host
    runtime : Overrides env.runtime project.runtime.kind e.project.runtime.kind
    container : e.project.runtime.container ≡ project.runtime.container
    settings : record e.project { runtime = project.runtime } ≡ project
    file : e.project_path ≡ found.0
    mutagen : Overrides env.mutagen_path defaults.mutagen_path e.mutagen_path
    agent : Overrides env.agent_path defaults.agent_path e.agent_path
    log : Overrides env.log defaults.log_level e.log_level
    valid : validate quote e ≡ none
