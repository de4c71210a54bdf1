-- ===== src/Diagnostics/Registered.antt =====
-- What healthy checks say of the host and of the plan.
use pwnbridge.Prelude.{
  and-true, not-true, ◌*◌, true, false, not, ◌&&◌, ◌||◌, List, [], ◌∷◌, ◌++◌, none, leb, ◌≡◌, refl,
  sym, ap, ◌∙◌, Bool-cases, Option-cases, inl, inr, if-true, if-false,
}
use pwnbridge.Prelude.Text.{Bytes, codes, bytes_eq, bytes_eq_sound}
use pwnbridge.Config.Names.{is_empty}
use pwnbridge.Config.Validate.{differs}
use pwnbridge.Bootstrap.Inventory.{Inventory}
use pwnbridge.Bootstrap.Plan.{ResolvedPlan}
use pwnbridge.Bootstrap.Plan.Build.{validate_executable}
use pwnbridge.Diagnostics.{
  Check, healthy, plan_check, ptrace_check, ptrace_checks, registration, remote_prerequisite_checks,
}

-- The first check passes if it is an error not to, and the others are healthy.
first_check :
    (check : Check) (checks : List Check)
    → check.severity ≡ codes "error"
    → healthy (check ∷ checks) ≡ true
    → (check.passed ≡ true) × (healthy checks ≡ true)
unfolding healthy bytes_eq
first_check check checks s h = elim (Bool-cases check.passed) [
  | inl e ↦ (e, sym (if-false _ false (healthy checks) (rw e refl)) ∙ h)
  | inr e ↦ cc (sym (if-true _ false (healthy checks) (rw (e, s) refl)) ∙ h)
]

later_checks :
    (check : Check) (checks : List Check) → healthy (check ∷ checks) ≡ true → healthy checks ≡ true
unfolding healthy
later_checks check checks h =
    elim (Bool-cases
      (not check.passed && (is_empty check.severity || bytes_eq check.severity (codes "error")))) [
        | inl e ↦ cc (sym (if-true _ false (healthy checks) e) ∙ h)
        | inr e ↦ sym (if-false _ false (healthy checks) e) ∙ h
      ]

healthy-append :
    (xs ys : List Check) → healthy (xs ++ ys) ≡ true → (healthy xs ≡ true) × (healthy ys ≡ true)
unfolding healthy
healthy-append [] ys h = (refl, h)
healthy-append (x ∷ xs) ys h =
    elim (Bool-cases
      (not x.passed && (is_empty x.severity || bytes_eq x.severity (codes "error")))) [
        | inl e ↦ cc (sym (if-true _ false (healthy (xs ++ ys)) e) ∙ h)
        | inr e ↦
            let (a, b) = healthy-append xs ys (sym (if-false _ false (healthy (xs ++ ys)) e) ∙ h) in
            (if-false _ false (healthy xs) e ∙ a, b)
      ]

-- A host that may be registered, with a plan for it.
pub record Ready (inventory : Inventory) (plan : ResolvedPlan) : Type 0 where
  linux : inventory.os ≡ codes "linux"
  amd64 : inventory.architecture ≡ codes "amd64"
  home : inventory.home_writable ≡ true
  disk : leb (1024 * 1024) inventory.disk_available_kib ≡ true
  inodes : leb 1000 inventory.inodes_available ≡ true
  ptrace : bytes_eq inventory.ptrace_scope (codes "3") ≡ false
  executable : validate_executable plan ≡ none

plan_check-healthy :
    (plan : ResolvedPlan) → healthy (plan_check plan ∷ []) ≡ true → validate_executable plan ≡ none
unfolding plan_check healthy bytes_eq
plan_check-healthy plan h = elim (Option-cases (validate_executable plan)) [
  | inl e ↦ e
  | inr (problem, e) ↦ cc (rw (plan_check, e) at (h))
]

empty_scope : (scope : Bytes) → is_empty scope ≡ true → bytes_eq scope (codes "3") ≡ false
unfolding bytes_eq
empty_scope [] h = refl
empty_scope (x ∷ xs) h = cc

ptrace_checks-healthy :
    (scope : Bytes) → healthy (ptrace_checks scope) ≡ true → bytes_eq scope (codes "3") ≡ false
unfolding ptrace_checks
ptrace_checks-healthy scope h = elim (Bool-cases (is_empty scope)) [
  | inl e ↦ empty_scope scope e
  | inr e ↦
      let listed =
        ap healthy (sym (if-false (is_empty scope) [] (ptrace_check scope ∷ []) e)) ∙ h in
      let (differs, rest) = first_check (ptrace_check scope) [] refl listed in
      not-true (bytes_eq scope (codes "3")) differs
]

-- When the checks of a registration are healthy, the host is linux/amd64, its home is writable, the disk
-- and the inodes are known to be enough, ptrace is not off, and the plan may be executed.
pub registration-Ready :
    (inventory : Inventory) (plan : ResolvedPlan)
    → healthy (registration inventory plan) ≡ true
    → Ready inventory plan
unfolding registration remote_prerequisite_checks
registration-Ready inventory plan h =
    let (remote, planned) =
      healthy-append (remote_prerequisite_checks inventory) (plan_check plan ∷ []) h in
    let after_ssh = later_checks _ _ remote in
    let (platform, after_platform) = first_check _ _ refl after_ssh in
    let after_distro = later_checks _ _ after_platform in
    let (home, after_home) = first_check _ _ refl after_distro in
    let (disk, after_disk) = first_check _ _ refl after_home in
    let (inodes, after_inodes) = first_check _ _ refl after_disk in
    let (linux, amd64) =
      and-true (bytes_eq inventory.os (codes "linux"))
        (bytes_eq inventory.architecture (codes "amd64")) platform in
    record {
      linux = bytes_eq_sound inventory.os (codes "linux") linux;
      amd64 = bytes_eq_sound inventory.architecture (codes "amd64") amd64;
      home = home;
      disk = disk;
      inodes = inodes;
      ptrace = ptrace_checks-healthy inventory.ptrace_scope after_inodes;
      executable = plan_check-healthy plan planned;
    }
