-- ===== src/Bootstrap/Plan/Executable.antt =====
-- What holds of the host and of the plan when the plan may be executed.
use pwnbridge.Prelude.{
  ℕ, ◌*◌, Bool, true, false, ◌||◌, ◌&&◌, not, List, [], ◌∷◌, ◌++◌, Option, none, some, ◌≡◌, refl,
  sym, ap, ◌∙◌, Bool-cases, Option-cases, inl, inr, length, ltb, leb, ◌==◌, ◌⊎◌, if-true, if-false,
  arith,
}
use pwnbridge.Prelude.Result.{Result, ok, err}
use pwnbridge.Prelude.Text.{Bytes, bytes_eq, bytes_eq_sound, codes}
use pwnbridge.Config.Names.{one_of}
use pwnbridge.Config.Types.{Recipe}
use pwnbridge.Config.Validate.{differs}
use pwnbridge.Recipe.Sort.{complaints-Quiet, join}
use pwnbridge.Bootstrap.Names.{component_order, component_docker, manager_nix}
use pwnbridge.Bootstrap.Catalog.{validate_catalog-none}
use pwnbridge.Bootstrap.Resolve.{chosen, validate_recipe}
use pwnbridge.Bootstrap.Inventory.{Inventory}
use pwnbridge.Bootstrap.Steps.{has_sudo_steps}
use pwnbridge.Bootstrap.Plan.{PlanOptions, ResolvedPlan, component_healthy, inventory_checks}
use pwnbridge.Bootstrap.Plan.Build.{
  add_blockers, add_warnings, docker_risk, build_plan, component_loop, docker_group_stage,
  docker_service_stage, docker_stage, no_sudo_stage, package_stage, pwndbg_stage, pwntools_stage,
  sort_stage, staged_plan, start_plan, sudo_stage, validate_executable,
}
use pwnbridge.Bootstrap.Plan.Stages.{
  Appends-trans, append-eq-nil_right, docker_stage-Appends, no_sudo_stage-Appends,
  package_stage-Appends, pwndbg_stage-Appends, pwntools_stage-Appends, sort_stage-Appends,
  sudo_stage-Appends,
}
use pwnbridge.Bootstrap.Plan.Sudo.{sudo_stage-steps}
use pwnbridge.Bootstrap.Plan.Actions.{
  Supported, component_loop_clear, staged_plan-actions, names_of, names_of-decided,
}

differs-false : (a b : Bytes) → differs a b ≡ false → a ≡ b
differs-false a b h = elim (Bool-cases (bytes_eq a b)) [
  | inl e ↦ bytes_eq_sound a b e
  | inr e ↦ cc (rw e at (h))
]

or-false : (a b : Bool) → (a || b) ≡ false → (a ≡ false) × (b ≡ false)
or-false true b h = cc
or-false false b h = (refl, h)

not-false : (a : Bool) → not a ≡ false → a ≡ true
not-false true h = refl
not-false false h = cc

guard_false :
    (root nix steps sudo : Bool)
    → (not root && not nix && steps && not sudo) ≡ false
    → steps ≡ true
    → (root || sudo || nix) ≡ true
guard_false true nix steps sudo h k = refl
guard_false false true steps true h k = refl
guard_false false true steps false h k = refl
guard_false false false steps true h k = refl
guard_false false false true false h k = cc
guard_false false false false false h k = cc

-- Too little of something that is known.
enough : (limit n : ℕ) → (not (n == 0) && ltb n limit) ≡ false → (n == 0 || leb limit n) ≡ true
enough limit n h = ground (arith, h)

added_blocker : (p : ResolvedPlan) (text : Bytes) → p.blockers ++ text ∷ [] ≡ [] → ⊥
added_blocker p text h = cc (append-eq-nil_right p.blockers (text ∷ []) h)

made :
    {p q : ResolvedPlan}
    → ◌≡◌ {A = Option (Result Bytes ResolvedPlan)} (some (ok p)) (some (ok q))
    → p ≡ q
made {p} h = λ i. elim (h i) [ none ↦ p | some (err problem) ↦ p | some (ok x) ↦ x ]

module _ (inventory : Inventory) (value : Recipe) (options : PlanOptions) where
  -- What the host has, and what the plan has, when it may be executed.
  pub record Executable (plan : ResolvedPlan) : Type 0 where
    linux : inventory.os ≡ codes "linux"
    amd64 : inventory.architecture ≡ codes "amd64"
    home : inventory.home_writable ≡ true
    disk :
        (inventory.disk_available_kib == 0 || leb (1024 * 1024) inventory.disk_available_kib) ≡ true
    inodes : (inventory.inodes_available == 0 || leb 1000 inventory.inodes_available) ≡ true
    each_once : names_of plan.actions ≡ chosen value.components component_order
    supported : Supported plan.actions
    sudo :
        has_sudo_steps plan.steps ≡ true
        → (inventory.root
            || inventory.sudo_available
            || bytes_eq inventory.package_manager manager_nix)
          ≡ true
    docker :
        (one_of component_docker value.components
            && not (component_healthy inventory component_docker []))
          ≡ true
        → (inventory.root || options.accept_docker_root_risk) ≡ true

  sudo_stage_clear :
      (p : ResolvedPlan)
      → (sudo_stage inventory value options p).blockers ≡ []
      → has_sudo_steps p.steps ≡ true
      → (inventory.root
          || inventory.sudo_available
          || bytes_eq inventory.package_manager manager_nix)
        ≡ true
  unfolding sudo_stage add_blockers
  sudo_stage_clear p h k =
      let guard =
        not inventory.root
        && differs inventory.package_manager manager_nix
        && has_sudo_steps p.steps
        && not inventory.sudo_available in
      elim (Bool-cases guard) [
        | inl e ↦
            absurd (added_blocker p _ (ap ResolvedPlan.blockers (sym (if-true guard _ p e)) ∙ h))
        | inr e ↦
            guard_false inventory.root (bytes_eq inventory.package_manager manager_nix)
              (has_sudo_steps p.steps) inventory.sudo_available e k
      ]

  docker_stage_clear :
      (p : ResolvedPlan)
      → (docker_stage inventory value options p).blockers ≡ []
      → (one_of component_docker value.components
          && not (component_healthy inventory component_docker []))
        ≡ true
      → (inventory.root || options.accept_docker_root_risk) ≡ true
  unfolding docker_stage docker_group_stage add_blockers
  docker_stage_clear p h k = elim (Bool-cases inventory.root) [
    | inl root ↦ rw root refl
    | inr no_root ↦ elim (Bool-cases options.accept_docker_root_risk) [
      | inl accepted ↦ rw (no_root, accepted) refl
      | inr not_accepted ↦
          let service = docker_service_stage inventory value options p in
          let warned = add_warnings (docker_risk inventory value options ∷ []) service in
          let ran = if-true _ (docker_group_stage inventory value options service) p k in
          let second = if-false inventory.root _ _ no_root in
          let third = if-false options.accept_docker_root_risk _ _ not_accepted in
          absurd
            (added_blocker warned _ (ap ResolvedPlan.blockers (sym (ran ∙ second ∙ third)) ∙ h))
    ]
  ]

  pub staged_plan-Executable :
      (explanations : List Bytes)
      → (staged_plan inventory value options explanations).blockers ≡ []
      → Executable (staged_plan inventory value options explanations)
  unfolding staged_plan start_plan inventory_checks sort_stage
  staged_plan-Executable explanations h =
      let ids = chosen value.components component_order in
      let p0 = start_plan inventory value options explanations in
      let p1 = component_loop inventory value options ids p0 in
      let p2 = package_stage inventory value options p1 in
      let p3 = pwntools_stage inventory value options p2 in
      let p4 = pwndbg_stage inventory value options p3 in
      let p5 = docker_stage inventory value options p4 in
      let p6 = no_sudo_stage inventory value options p5 in
      let p7 = sudo_stage inventory value options p6 in
      let a7 = sort_stage-Appends inventory value options p7 in
      let a6 = sudo_stage-Appends inventory value options p6 in
      let a5 = no_sudo_stage-Appends inventory value options p5 in
      let a4 = docker_stage-Appends inventory value options p4 in
      let a1 = Appends-trans p1 p2 p4 (package_stage-Appends inventory value options p1) (
        Appends-trans p2 p3 p4 (pwntools_stage-Appends inventory value options p2)
          (pwndbg_stage-Appends inventory value options p3)) in
      let clear7 = a7.clear h in
      let clear5 = a5.clear (a6.clear clear7) in
      let (clear0, all_supported) =
        component_loop_clear inventory value options ids p0 (a1.clear (a4.clear clear5)) in
      let quiet = complaints-Quiet (inventory_checks inventory) clear0 in
      let actions = staged_plan-actions inventory value options explanations in
      let (os_differs, arch_differs) =
        or-false (differs inventory.os (codes "linux"))
          (differs inventory.architecture (codes "amd64")) quiet.0 in
      record {
        linux = differs-false inventory.os (codes "linux") os_differs;
        amd64 = differs-false inventory.architecture (codes "amd64") arch_differs;
        home = not-false inventory.home_writable quiet.1.0;
        disk = enough (1024 * 1024) inventory.disk_available_kib quiet.1.1.0;
        inodes = enough 1000 inventory.inodes_available quiet.1.1.1.0;
        each_once = rw (ap names_of actions) (names_of-decided inventory value options ids);
        supported = rw actions all_supported;
        sudo = λ k.
            sudo_stage_clear p6 clear7
              (ap has_sudo_steps (sym (sudo_stage-steps inventory value options p6)) ∙ k);
        docker = λ k. docker_stage_clear p4 clear5 k;
      }

nil_or_some : (xs : List Bytes) → (xs ≡ []) ⊎ ((length xs == 0) ≡ false)
nil_or_some [] = inl refl
nil_or_some (x ∷ xs) = inr (ground arith)

validate_executable-none :
    (plan : ResolvedPlan) → validate_executable plan ≡ none → plan.blockers ≡ []
unfolding validate_executable
validate_executable-none plan h = elim (nil_or_some plan.blockers) [
  | inl e ↦ e
  | inr e ↦ cc (
      sym (
        if-false (length plan.blockers == 0) none
          (some (codes "bootstrap plan has blockers: " ++ join plan.blockers)) e)
      ∙ h)
]

module _ (inventory : Inventory) (value : Recipe) (options : PlanOptions)
    (quote : Bytes → Bytes) where
  build_plan-staged_plan :
      (explanations : List Bytes) (plan : ResolvedPlan)
      → build_plan inventory value options quote explanations ≡ some (ok plan)
      → staged_plan inventory value options explanations ≡ plan
  unfolding build_plan
  build_plan-staged_plan explanations plan h = elim (Option-cases (validate_recipe quote value)) [
    | inl e ↦ cc (rw (build_plan, validate_catalog-none, e) at (h))
    | inr (some problem, e) ↦ cc (rw (build_plan, validate_catalog-none, e) at (h))
    | inr (none, e) ↦ made (rw (build_plan, validate_catalog-none, e) at (h))
  ]

  -- A plan that BuildPlan gives and that may be executed is for a linux/amd64 host whose home is
  -- writable, and where the disk and the inodes that are known are enough. It has one action for each
  -- selected component, in the order of the catalog, and none of them is unsupported. If one of its
  -- steps needs root, then the user is root, or sudo is available, or the package manager is Nix. If
  -- Docker is to be set up, then the user is root, or has accepted the risk.
  pub build_plan-Executable :
      (explanations : List Bytes) (plan : ResolvedPlan)
      → build_plan inventory value options quote explanations ≡ some (ok plan)
      → validate_executable plan ≡ none
      → Executable inventory value options plan
  build_plan-Executable explanations plan h k =
      let same = build_plan-staged_plan explanations plan h in
      rw (sym same) (
        staged_plan-Executable inventory value options explanations
          (ap ResolvedPlan.blockers same ∙ validate_executable-none plan k))
