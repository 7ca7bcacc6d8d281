-- ===== src/Plan/Build/Total.antt =====
-- When src/plan.rs makes a plan.
use pve_compose.Base.{
  ◌≡◌, ◌≢◌, ◌↔◌, inl, inr, refl, false, Option, none, List, [], ◌∷◌, ◌++◌, Text, All, Bool-cases,
  Option-cases, if◌then◌else◌, Result, ok, err, >>=-eq-ok,
}
use pve_compose.Config.{storage_for}
use pve_compose.Spec.Volumes.{Kind, disk, bind, plain, Volume, dir}
use pve_compose.Pct.Guest.{GuestConfig, mount_at}
use pve_compose.Plan.Build.{
  Plan, PlanError, Inputs, is_a_template, plan_of, disk_step, or_default, disk_volume, volume_step,
  volume_steps, start_plan, orphans, no_storage, build,
}

-- A storage stands behind every disk volume: its own, or the node's.
abbrev pub IsStored : Option Text → Kind → Type 0
IsStored default plain = Unit
IsStored default (bind path) = Unit
IsStored default (disk own size) = or_default own default ≢ none

module _ (g : GuestConfig) (default : Option Text) where
  volume_step_total :
      (v : Volume) (kind : Kind)
      → IsStored default kind
      → (p : Plan) × (volume_step g default v kind ≡ ok p)
  unfolding volume_step
  volume_step_total v plain s = (_, refl)
  volume_step_total v (bind path) s = (_, refl)
  volume_step_total v (disk own size) s = elim (Option-cases (or_default own default)) [
    | inl missing ↦ absurd (s missing)
    | inr (st, found) ↦ (disk_step v st size (mount_at g (dir v)), rw (found, disk_volume) refl)
  ]

  volume_steps_total :
      (vs : List Volume) (p : Plan)
      → All (λ v. IsStored default v.kind) vs
      → (q : Plan) × (volume_steps g default p vs ≡ ok q)
  unfolding volume_steps
  volume_steps_total [] p _ = (p, refl)
  volume_steps_total (v ∷ vs) p (here, later) =
      let (step, made) = volume_step_total v v.kind here in
      let (q, rest) =
        volume_steps_total vs (plan_of (p.ops ++ step.ops) (p.notes ++ step.notes)) later in
      (q, rw made rest)

  volume_steps-IsStored :
      (vs : List Volume) (p q : Plan)
      → volume_steps g default p vs ≡ ok q
      → All (λ v. IsStored default v.kind) vs
  unfolding volume_steps volume_step
  volume_steps-IsStored [] p q h = tt
  volume_steps-IsStored (v ∷ vs) p q h =
      let (step, made, rest) = >>=-eq-ok (volume_step g default v v.kind) _ h in
      (
        stored v v.kind step made,
        volume_steps-IsStored vs (plan_of (p.ops ++ step.ops) (p.notes ++ step.notes)) q rest,
      )
    where
      refused :
          {step : Plan} (w : Volume)
          → Path (Result PlanError Plan) (err (no_storage w.name)) (ok step)
          → ⊥
      refused w e = cc e

      stored :
          (w : Volume) (kind : Kind) (step : Plan)
          → volume_step g default w kind ≡ ok step
          → IsStored default kind
      stored w plain step made = tt
      stored w (bind path) step made = tt
      stored w (disk own size) step made =
          λ missing. refused w (rw (missing, disk_volume, volume_step) at made)

-- A plan is made exactly when the guest is no template and a storage stands behind every disk
-- volume; the only other results are the two refusals.
pub build_total_iff :
    (i : Inputs)
    → ((p : Plan) × (build i ≡ ok p)) ↔ (
        (i.guest.is_template ≡ false)
        × All (λ v. IsStored (storage_for i.config i.node) v.kind) i.volumes)
unfolding build
build_total_iff i = ((λ (p, h). met p h), λ (wrapper, stored). made wrapper stored)
  where
    default : Option Text
    default = storage_for i.config i.node

    met :
        (p : Plan)
        → build i ≡ ok p
        → (i.guest.is_template ≡ false) × All (λ v. IsStored default v.kind) i.volumes
    met p h = elim (Bool-cases i.guest.is_template) [
      | inl template ↦ absurd (cc (rw template at h))
      | inr wrapper ↦
          let (_, _, h₁) =
            >>=-eq-ok (if i.guest.is_template then err (is_a_template i.guest.vmid) else ok tt) _
              h in
          let (q, looped, _) =
            >>=-eq-ok (volume_steps i.guest default (start_plan i) i.volumes) _ h₁ in
          (wrapper, volume_steps-IsStored i.guest default i.volumes (start_plan i) q looped)
    ]

    made :
        i.guest.is_template ≡ false
        → All (λ v. IsStored default v.kind) i.volumes
        → (p : Plan) × (build i ≡ ok p)
    made wrapper stored =
        let (q, looped) = volume_steps_total i.guest default i.volumes (start_plan i) stored in
        (plan_of q.ops (q.notes ++ orphans i.volumes i.guest.mounts), simp (wrapper, looped))
