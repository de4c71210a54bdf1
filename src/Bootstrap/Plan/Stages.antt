-- ===== src/Bootstrap/Plan/Stages.antt =====
-- Each stage of BuildPlan leaves the actions and the blockers of a plan, and may add blockers.
use pwnbridge.Prelude.{
  Bool, true, false, List, [], ◌∷◌, ◌++◌, if◌then◌else◌, ◌≡◌, refl, ◌∙◌, Bool-cases, inl, inr,
}
use pwnbridge.Prelude.Text.{Bytes}
use pwnbridge.Config.Names.{one_of}
use pwnbridge.Config.Types.{Recipe}
use pwnbridge.Recipe.{stable_unique, unique_from}
use pwnbridge.Recipe.Sort.{bytes_less, insert, sort_strings}
use pwnbridge.Bootstrap.Inventory.{Inventory}
use pwnbridge.Bootstrap.Steps.{Step, docker_setup_steps}
use pwnbridge.Bootstrap.Plan.{PlanOptions, ResolvedPlan}
use pwnbridge.Bootstrap.Plan.Build.{
  add_blockers, add_steps, add_warnings, docker_group_stage, docker_risk, docker_service_stage,
  docker_stage, no_sudo_stage, package_stage, pwndbg_stage, pwntools_stage, sort_stage, sudo_stage,
}

pub append-eq-nil : {A : Type 0} (xs ys : List A) → xs ++ ys ≡ [] → xs ≡ []
append-eq-nil [] ys h = refl
append-eq-nil (x ∷ xs) ys h = cc

pub append-eq-nil_right : {A : Type 0} (xs ys : List A) → xs ++ ys ≡ [] → ys ≡ []
append-eq-nil_right [] ys h = h
append-eq-nil_right (x ∷ xs) ys h = cc

-- A later plan has the actions and the blockers of an earlier one.
pub record Appends (p q : ResolvedPlan) : Type 0 where
  pub clear : q.blockers ≡ [] → p.blockers ≡ []
  pub same : q.actions ≡ p.actions

Appends-refl : (p : ResolvedPlan) → Appends p p
Appends-refl p = record { clear = λ h. h; same = refl }

pub Appends-trans : (p q r : ResolvedPlan) → Appends p q → Appends q r → Appends p r
Appends-trans p q r a b = record { clear = λ h. a.clear (b.clear h); same = b.same ∙ a.same }

if-Appends :
    (b : Bool) (p q r : ResolvedPlan) → Appends p q → Appends p r → Appends p (if b then q else r)
if-Appends true p q r a c = a
if-Appends false p q r a c = c

pub add_blockers-Appends :
    (blockers : List Bytes) (p : ResolvedPlan) → Appends p (add_blockers blockers p)
unfolding add_blockers
add_blockers-Appends blockers p = record {
  clear = λ h. append-eq-nil p.blockers blockers h;
  same = refl;
}

add_steps-Appends : (steps : List Step) (p : ResolvedPlan) → Appends p (add_steps steps p)
unfolding add_steps
add_steps-Appends steps p = record { clear = λ h. h; same = refl }

add_warnings-Appends :
    (warnings : List Bytes) (p : ResolvedPlan) → Appends p (add_warnings warnings p)
unfolding add_warnings
add_warnings-Appends warnings p = record { clear = λ h. h; same = refl }

module _ (inventory : Inventory) (value : Recipe) (options : PlanOptions) where
  pub package_stage-Appends :
      (p : ResolvedPlan) → Appends p (package_stage inventory value options p)
  unfolding package_stage
  package_stage-Appends p =
      Appends-trans p _ _ (if-Appends _ p _ p (add_blockers-Appends _ p) (Appends-refl p)) (
        if-Appends _ _ _ _ (Appends-refl _) (
          if-Appends _ _ _ _ (add_blockers-Appends _ _)
            (Appends-trans _ _ _ (add_steps-Appends _ _) (add_steps-Appends _ _))))

  pub pwntools_stage-Appends :
      (p : ResolvedPlan) → Appends p (pwntools_stage inventory value options p)
  unfolding pwntools_stage
  pwntools_stage-Appends p = if-Appends _ p _ p (add_steps-Appends _ p) (Appends-refl p)

  pub pwndbg_stage-Appends : (p : ResolvedPlan) → Appends p (pwndbg_stage inventory value options p)
  unfolding pwndbg_stage
  pwndbg_stage-Appends p = if-Appends _ p _ p (add_steps-Appends _ p) (Appends-refl p)

  pub docker_service_stage-Appends :
      (p : ResolvedPlan) → Appends p (docker_service_stage inventory value options p)
  unfolding docker_service_stage
  docker_service_stage-Appends p =
      if-Appends _ p _ p (Appends-trans p _ _ (add_warnings-Appends _ p) (add_blockers-Appends _ _))
        (Appends-refl p)

  pub docker_group_stage-Appends :
      (p : ResolvedPlan) → Appends p (docker_group_stage inventory value options p)
  unfolding docker_group_stage
  docker_group_stage-Appends p =
      let warned = add_warnings (docker_risk inventory value options ∷ []) p in
      let warned_Appends = add_warnings-Appends (docker_risk inventory value options ∷ []) p in
      let setup = docker_setup_steps inventory in
      if-Appends inventory.root p _ _ (add_steps-Appends setup p) (
        if-Appends options.accept_docker_root_risk p _ _
          (Appends-trans p warned _ warned_Appends (add_steps-Appends setup warned))
          (Appends-trans p warned _ warned_Appends (add_blockers-Appends _ warned)))

  pub docker_stage-Appends : (p : ResolvedPlan) → Appends p (docker_stage inventory value options p)
  unfolding docker_stage
  docker_stage-Appends p =
      if-Appends _ p _ p
        (Appends-trans p _ _ (docker_service_stage-Appends p) (docker_group_stage-Appends _))
        (Appends-refl p)

  with_steps-Appends :
      (steps : List Step) (p : ResolvedPlan) → Appends p (record p { steps = steps })
  with_steps-Appends steps p = record { clear = λ h. h; same = refl }

  pub no_sudo_stage-Appends :
      (p : ResolvedPlan) → Appends p (no_sudo_stage inventory value options p)
  unfolding no_sudo_stage
  no_sudo_stage-Appends p =
      if-Appends _ p _ p
        (Appends-trans p _ _ (if-Appends _ p p _ (Appends-refl p) (add_blockers-Appends _ p))
          (with_steps-Appends _ _))
        (Appends-refl p)

  pub sudo_stage-Appends : (p : ResolvedPlan) → Appends p (sudo_stage inventory value options p)
  unfolding sudo_stage
  sudo_stage-Appends p = if-Appends _ p _ p (add_blockers-Appends _ p) (Appends-refl p)

insert_some : (x : Bytes) (xs : List Bytes) → insert x xs ≡ [] → ⊥
unfolding insert
insert_some x [] h = cc
insert_some x (y ∷ ys) h = elim (Bool-cases (bytes_less y x)) [
  | inl e ↦ cc (rw e at (h))
  | inr e ↦ cc (rw e at (h))
]

sort_strings-nil : (xs : List Bytes) → sort_strings xs ≡ [] → xs ≡ []
unfolding sort_strings
sort_strings-nil [] h = refl
sort_strings-nil (x ∷ xs) h = absurd (insert_some x (sort_strings xs) h)

stable_unique-nil : (xs : List Bytes) → stable_unique xs ≡ [] → xs ≡ []
unfolding stable_unique unique_from one_of
stable_unique-nil [] h = refl
stable_unique-nil (x ∷ xs) h = cc

pub sort_stage-Appends :
    (i : Inventory) (v : Recipe) (o : PlanOptions) (p : ResolvedPlan)
    → Appends p (sort_stage i v o p)
unfolding sort_stage
sort_stage-Appends i v o p = record {
  clear = λ h. sort_strings-nil p.blockers (stable_unique-nil (sort_strings p.blockers) h);
  same = refl;
}
