-- ===== src/Config/Validate/Load.antt =====
-- internal/config/config.go: Load and LoadGlobal. The answers of the environment, of the file system
-- and of the TOML decoder are arguments, and so is the search of FindProject for the project file.
use pwnbridge.Prelude.{
  Bool, true, false, not, ◌&&◌, ◌||◌, List, [], ◌∷◌, ◌++◌, Option, none, some, if◌then◌else◌, ◌≡◌,
  refl,
}
use pwnbridge.Prelude.Int.{ℤ}
use pwnbridge.Prelude.Result.{Result, ok, err, ◌>>=◌}
use pwnbridge.Prelude.Text.{Bytes, codes, bytes_eq, has_prefix}
use pwnbridge.Config.Types.{Global, Project, Effective, defaults}
use pwnbridge.Config.Layers.{GlobalLayer, ProjectLayer, LayerError, apply_global, apply_project}
use pwnbridge.Config.Names.{is_empty}
use pwnbridge.Config.Names.Paths.{parent, parent_slash, path_clean, slash}
use pwnbridge.Config.Validate.{differs, validate}
pub mod Loaded

-- The variables that are read; one that is not set is empty.
pub record Environ : Type 0 where
  pub config : Bytes
  pub host : Bytes
  pub mutagen_path : Bytes
  pub agent_path : Bytes
  pub log : Bytes
  pub runtime : Bytes

pub data FileAnswer : Type 0 where
  missing : FileAnswer
  unreadable : Bytes → FileAnswer
  content : Bytes → FileAnswer

pub data LoadError : Type 0 where
  global_file : Bytes → LoadError
  global_layer : LayerError → LoadError
  project_search : Bytes → LoadError
  project_file : Bytes → LoadError
  project_layer : LayerError → LoadError
  workspace_link : Bytes → LoadError
  workspace_outside : LoadError
  invalid : Bytes → LoadError

abbrev pub map_err {ℓ κ μ} :
    {E : Type ℓ} {F : Type κ} {A : Type μ} → (E → F) → Result E A → Result F A
map_err f (ok a) = ok a
map_err f (err e) = err (f e)

-- filepath.Join(a, b)
unfoldable pub path_join : Bytes → Bytes → Bytes
path_join [] [] = []
path_join [] (c ∷ b) = path_clean (c ∷ b)
path_join (c ∷ a) [] = path_clean (c ∷ a)
path_join (c ∷ a) (d ∷ b) = path_clean ((c ∷ a) ++ slash ∷ d ∷ b)

-- A file that does not exist leaves the target as it is: the empty layer.
unfoldable pub decode_optional {ℓ} :
    {L : Type ℓ} → L → (Bytes → Result Bytes L) → FileAnswer → Result Bytes L
decode_optional target decode missing = ok target
decode_optional target decode (unreadable e) = err e
decode_optional target decode (content text) = decode text

abbrev pub empty_global : GlobalLayer
empty_global = record {
  schema = none;
  default_host = none;
  hosts = none;
  sync = none;
  terminal = none;
  runtime = none;
  bootstrap_profiles = none;
}

abbrev pub empty_project : ProjectLayer
empty_project = record {
  schema = none;
  target = none;
  workspace = none;
  environment = none;
  shell = none;
  runtime = none;
}

-- `if value := os.Getenv(name); value != "" { dst = value }`
abbrev pub set_by : Bytes → Bytes → Bytes
set_by [] dst = dst
set_by (c ∷ s) dst = c ∷ s

unfoldable pub apply_environment : Environ → Effective → Effective
apply_environment env e = record e {
  selected_host = set_by env.host e.selected_host;
  mutagen_path = set_by env.mutagen_path e.mutagen_path;
  agent_path = set_by env.agent_path e.agent_path;
  log_level = set_by env.log e.log_level;
  project = record e.project {
    runtime = record e.project.runtime { kind = set_by env.runtime e.project.runtime.kind };
  };
}

-- The default host, unless one is selected.
unfoldable pub select_host : Effective → Effective
select_host e = record e { selected_host = set_by e.selected_host e.global.default_host }

unfoldable pub accept : (Bytes → Bytes) → Effective → Result LoadError Effective
accept quote e = elim (validate quote e) [ none ↦ ok e | some text ↦ err (invalid text) ]

module _ (quote : Bytes → Bytes) (parse_duration : Bytes → Option ℤ)
    (read_file : Bytes → FileAnswer) (decode_global : Bytes → Result Bytes GlobalLayer)
    (decode_project : Bytes → Result Bytes ProjectLayer)
    (find_project : Bytes → Result Bytes (Bytes × Bytes))
    (eval_symlinks : Bytes → Result Bytes Bytes) (relative_to : Bytes → Bytes → Option Bytes) where
  unfoldable pub global_path_of : Environ → Bytes → Bytes
  global_path_of env config_dir = set_by env.config (path_join config_dir (codes "config.toml"))

  unfoldable pub load_global_layer : Bytes → Result LoadError Global
  load_global_layer path = do
    gl ← map_err global_file (decode_optional empty_global decode_global (read_file path))
    map_err global_layer (apply_global parse_duration defaults.global gl)

  -- The project's settings over those of `base`. Without a project file they are those of `base`.
  unfoldable pub load_project_layer : Bytes → Project → Result LoadError Project
  load_project_layer [] base = ok base
  load_project_layer (c ∷ path) base = do
    pl ← map_err project_file (decode_optional empty_project decode_project (read_file (c ∷ path)))
    map_err project_layer (apply_project base pl)

  abbrev inside : Option Bytes → Bytes → Result LoadError Bytes
  inside none root = err workspace_outside
  inside (some relative) root =
      if bytes_eq relative parent || has_prefix relative parent_slash
      then err workspace_outside
      else ok root

  abbrev linked_root : Bytes → Bytes → Result LoadError Bytes
  linked_root base root = do
    target ← map_err workspace_link (eval_symlinks (path_join base root))
    inside (relative_to base target) target

  unfoldable pub workspace_root : Bytes → Bytes → Result LoadError Bytes
  workspace_root base root =
      let linked = linked_root base root in if differs root (codes ".") then linked else ok base

  unfoldable pub load : Environ → Bytes → Bytes → Result LoadError Effective
  load env config_dir cwd = do
    global ← load_global_layer (global_path_of env config_dir)
    found ← map_err project_search (find_project cwd)
    project ← load_project_layer found.0 (record defaults.project { runtime = global.runtime })
    root ← workspace_root found.1 project.workspace.root
    accept quote (
        select_host (
          apply_environment env (record defaults {
            global = global;
            project = project;
            global_path = global_path_of env config_dir;
            project_path = found.0;
            project_root = root;
          })))

  unfoldable pub load_global : Environ → Bytes → Result LoadError Effective
  load_global env config_dir = do
    global ← load_global_layer (global_path_of env config_dir)
    accept quote (record defaults {
      global = global;
      global_path = global_path_of env config_dir;
      agent_path = set_by env.agent_path defaults.agent_path;
    })
