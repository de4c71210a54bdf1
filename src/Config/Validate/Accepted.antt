-- ===== src/Config/Validate/Accepted.antt =====
-- What Validate has checked when it reports no problem.
use pwnbridge.Prelude.{
  Bool, true, false, not, ◌&&◌, ◌||◌, List, [], ◌∷◌, ◌++◌, ◌==◌, none, ◌≡◌, ◌⊎◌, inl, inr, refl,
}
use pwnbridge.Prelude.Text.{Bytes, codes, bytes_eq, bytes_eq_refl, bytes_eq_sound, has_prefix}
use pwnbridge.Config.Types.{Host, Effective}
use pwnbridge.Config.Names.{
  any, is_empty, unsafe_argument, valid_host_name, valid_environment_name, valid_mosh_port,
}
use pwnbridge.Config.Names.Paths.{path_clean, valid_remote_workspace_root}
use pwnbridge.Config.Validate.{
  differs, validate, checks, host_checks, variable_checks, project_checks, runtime_checks, to_upper,
  host_choice_checks, profile_checks, schema_checks, sync_checks, terminal_checks,
}
use pwnbridge.Recipe.Sort.{Check, Quiet, Quiet-append, Quiet-checks_of, In, checks_of, joined-Quiet}

not-false : (b : Bool) → not b ≡ false → b ≡ true
not-false true h = refl
not-false false h = cc

same : (a b : Bytes) → differs a b ≡ false → a ≡ b
same a b h = bytes_eq_sound a b (not-false (bytes_eq a b) h)

or-false : (a b : Bool) → (a || b) ≡ false → (a ≡ false) × (b ≡ false)
or-false true b h = cc
or-false false b h = (refl, h)

either : (a b : Bool) → (not a && not b) ≡ false → (a ≡ true) ⊎ (b ≡ true)
either true b h = inl refl
either false b h = inr (not-false b h)

optional : (s : Bytes) (b : Bool) → (not (is_empty s) && not b) ≡ false → (s ≡ []) ⊎ (b ≡ true)
optional [] b h = inl refl
optional (c ∷ s) b h = inr (not-false b h)

-- Of eight groups of tests that are quiet, the fourth, the fifth and the seventh.
groups_of :
    (x a b c d s h p : List Check)
    → Quiet (x ++ a ++ b ++ c ++ d ++ s ++ h ++ p)
    → Quiet c × (Quiet d × Quiet h)
groups_of x a b c d s h p all =
    let (all7, _) = Quiet-append (x ++ a ++ b ++ c ++ d ++ s ++ h) p all in
    let (all6, quiet_h) = Quiet-append (x ++ a ++ b ++ c ++ d ++ s) h all7 in
    let (all5, _) = Quiet-append (x ++ a ++ b ++ c ++ d) s all6 in
    let (all4, quiet_d) = Quiet-append (x ++ a ++ b ++ c) d all5 in
    let (_, quiet_c) = Quiet-append (x ++ a ++ b) c all4 in (quiet_c, (quiet_d, quiet_h))

module _ (quote : Bytes → Bytes) where
  -- The four groups of tests that theorems below look into.
  record Groups (e : Effective) : Type 0 where
    project : Quiet (project_checks quote e.project)
    runtime : Quiet (runtime_checks quote e.global.terminal.scope e.project)
    hosts : Quiet (checks_of (host_checks quote e.global.bootstrap_profiles) e.global.hosts)

  validate-Groups : (e : Effective) → validate quote e ≡ none → Groups e
  unfolding validate checks
  validate-Groups e h =
      let (project, (runtime, hosts)) =
        groups_of (schema_checks e) (sync_checks e.global) (terminal_checks quote e.global)
          (project_checks quote e.project) (runtime_checks quote e.global.terminal.scope e.project)
          (host_choice_checks quote e)
          (checks_of (host_checks quote e.global.bootstrap_profiles) e.global.hosts)
          (checks_of (profile_checks quote) e.global.bootstrap_profiles)
          (joined-Quiet (checks quote e) h) in
      record { project = project; runtime = runtime; hosts = hosts }

  -- When Validate reports no problem, each host of the configuration has a name that ValidHostName
  -- takes, a destination that is safe as an argument of ssh, the platform linux/amd64, and a
  -- workspace root and a mosh port that are absent or pass their tests.
  pub validate-hosts :
      (e : Effective) (name : Bytes) (host : Host)
      → validate quote e ≡ none
      → In (name, host) e.global.hosts
      → (valid_host_name name ≡ true)
        × (unsafe_argument host.destination 512 ≡ false)
        × (host.platform ≡ codes "linux/amd64")
        × ((host.workspace_root ≡ []) ⊎ (valid_remote_workspace_root host.workspace_root ≡ true))
        × ((host.mosh_port ≡ []) ⊎ (valid_mosh_port host.mosh_port ≡ true))
  unfolding host_checks
  validate-hosts e name host h member =
      let f = host_checks quote e.global.bootstrap_profiles in
      let (named, (filled, (safe, (platform, (root, (profile, (transport, (port, _)))))))) =
        Quiet-checks_of f e.global.hosts (name, host) (validate-Groups e h).hosts member in
      (
        not-false (valid_host_name name) named,
        safe,
        same host.platform (codes "linux/amd64") platform,
        optional host.workspace_root (valid_remote_workspace_root host.workspace_root) root,
        optional host.mosh_port (valid_mosh_port host.mosh_port) port,
      )

  -- When Validate reports no problem, each variable that the project sets has a name that
  -- validEnvironmentName takes, without the reserved prefix in any case of its letters, and a value
  -- without a NUL.
  pub validate-variables :
      (e : Effective) (key value : Bytes)
      → validate quote e ≡ none
      → In (key, value) e.project.environment.variables
      → (valid_environment_name key ≡ true)
        × (has_prefix (to_upper key) (codes "PWNBRIDGE_") ≡ false)
        × (any (λ c. c == 0) value ≡ false)
  unfolding project_checks variable_checks
  validate-variables e key value h member =
      let (_, (_, (_, variables))) = (validate-Groups e h).project in
      let (named, (free, (clean, _))) =
        Quiet-checks_of (variable_checks quote) e.project.environment.variables (key, value)
          variables member in
      let (short, no_nul) = or-false _ _ clean in
      (not-false (valid_environment_name key) named, free, no_nul)

  -- When Validate reports no problem and the runtime is a container, its image and its network are
  -- safe as arguments, its working directory is /work or below it once cleaned, and the terminal's
  -- scope is not remote.
  pub validate-container :
      (e : Effective)
      → validate quote e ≡ none
      → e.project.runtime.kind ≡ codes "container"
      → (unsafe_argument e.project.runtime.container.image 512 ≡ false)
        × (unsafe_argument e.project.runtime.container.network 128 ≡ false)
        × ((path_clean e.project.runtime.container.workdir ≡ codes "/work")
            ⊎ (has_prefix (path_clean e.project.runtime.container.workdir) (codes "/work/") ≡ true))
        × (bytes_eq e.global.terminal.scope (codes "remote") ≡ false)
  unfolding runtime_checks
  validate-container e h kind =
      let chosen : bytes_eq e.project.runtime.kind (codes "container") ≡ true =
        rw kind (bytes_eq_refl (codes "container")) in
      let (_, (_, (engine, (image, (workdir, (network, (scope, _))))))) =
        rw chosen at ((validate-Groups e h).runtime) in
      (
        image,
        network,
        elim (either (bytes_eq (path_clean e.project.runtime.container.workdir) (codes "/work")) _
            workdir) [ inl top ↦ inl (bytes_eq_sound _ _ top) | inr below ↦ inr below ],
        scope,
      )
