-- ===== src/Bootstrap/Plan/Sound.antt =====
-- What a plan decides about a component is about that component, and blocks the plan when it leaves
-- the component unsupported.
use pwnbridge.Prelude.{
  Bool, true, false, ◌&&◌, not, [], if◌then◌else◌, ◌≡◌, refl, Option-cases, inl, inr,
}
use pwnbridge.Prelude.Map.{map_lookup}
use pwnbridge.Prelude.Text.{Bytes, bytes_eq}
use pwnbridge.Config.Names.{is_empty}
use pwnbridge.Config.Validate.{differs}
use pwnbridge.Bootstrap.Names.{component_pwndbg, component_pwntools, manager_nix}
use pwnbridge.Bootstrap.Catalog.{component_of}
use pwnbridge.Bootstrap.Inventory.{Inventory}
use pwnbridge.Bootstrap.Plan.{
  ActionState, PlanOptions, component_healthy, install, is_musl, repair, skip, unsupported, warning,
}
use pwnbridge.Bootstrap.Plan.Decide.{
  Outcome, decide, decide_default, decide_immutable, decide_mapped, decide_musl,
}

abbrev pub is_unsupported : ActionState → Bool
is_unsupported unsupported = true
is_unsupported install = false
is_unsupported repair = false
is_unsupported skip = false
is_unsupported warning = false

-- A decision on a component that nothing is blocked by does not leave it unsupported.
pub record Sound (id : Bytes) (o : Outcome) : Type 0 where
  pub named : o.action.component ≡ id
  pub supported : o.blockers ≡ [] → is_unsupported o.action.state ≡ false

if-Sound :
    (id : Bytes) (b : Bool) (x y : Outcome)
    → Sound id x
    → Sound id y
    → Sound id (if b then x else y)
if-Sound id true x y s t = s
if-Sound id false x y s t = t

module _ (inventory : Inventory) (id : Bytes) (options : PlanOptions) where
  decide_mapped-Sound : Sound id (decide_mapped inventory id)
  unfolding decide_mapped
  decide_mapped-Sound =
      elim (Option-cases (map_lookup inventory.package_manager (component_of id).packages)) [
        | inr (mapped, e) ↦ rw (decide_mapped, e) (record { named = refl; supported = λ h. refl })
        | inl e ↦
            rw (decide_mapped, e)
              (if-Sound id (bytes_eq id component_pwntools) _ _
                (record { named = refl; supported = λ h. refl })
                (record { named = refl; supported = λ h. cc }))
      ]

  pub decide-Sound : Sound id (decide inventory id options)
  unfolding decide decide_musl decide_immutable decide_default
  decide-Sound =
      if-Sound id (bytes_eq id component_pwndbg && is_musl inventory) _ _
        (record { named = refl; supported = λ h. cc })
        (if-Sound id (component_healthy inventory id (component_of id).tools) _ _
          (record { named = refl; supported = λ h. refl })
          (if-Sound id (bytes_eq id component_pwntools && not (is_empty inventory.pwntools_version))
            _ _ (record { named = refl; supported = λ h. refl })
            (if-Sound id (bytes_eq id component_pwndbg && not (is_empty inventory.pwndbg_version)) _
              _ (record { named = refl; supported = λ h. refl })
              (if-Sound id
                (inventory.immutable
                  && differs inventory.package_manager manager_nix
                  && (component_of id).privileged)
                _ _ (record { named = refl; supported = λ h. cc })
                (if-Sound id (component_of id).privileged _ _ decide_mapped-Sound (
                  if-Sound id _ _ _ (record { named = refl; supported = λ h. refl })
                    (record { named = refl; supported = λ h. refl })))))))
