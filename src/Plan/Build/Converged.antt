-- ===== src/Plan/Build/Converged.antt =====
-- When src/plan.rs plans nothing.
use mathlib.Core.List.{append-eq-nil_iff, cons-ne-nil}
use mathlib.Core.Option.{none-ne-some, some-injective}
use native.Mathlib.Omega.{arith}
use pve_compose.Base.{
  ◌+◌, ◌≤◌, ◌≡◌, ◌≢◌, ◌↔◌, ◌⊎◌, inl, inr, refl, sym, ◌∙◌, subst, Bool, true, false, Option, none,
  some, List, [], ◌∷◌, ◌++◌, Text, text_eq, All, Bool-cases, Option-cases, if◌then◌else◌, ltb, leb,
  ok, err, >>=-eq-ok, ok-injective,
}
use pve_compose.Size.{Size, mib}
use pve_compose.Config.{storage_for}
use pve_compose.Spec.Volumes.{Kind, disk, bind, plain, Volume, dir}
use pve_compose.Pct.Mount.{Mount, is_bind}
use pve_compose.Pct.Guest.{GuestConfig, mount_at, has_tag}
use pve_compose.Plan.Build.{
  Plan, Inputs, is_a_template, tag_ops, plan_of, plain_step, bind_step, size_plan, backup_ops,
  bool_eq, disk_step, or_default, disk_volume, volume_step, volume_steps, start_plan, build,
}
use pve_compose.Plan.Build.Justified.{bool_eq_ne}
use pve_compose.Plan.Build.Features.{HasFeatures, feature_ops-eq-nil_iff}

-- The mounted size is the one asked for, up to one MiB.
abbrev pub IsEnough : Option Size → Size → Type 0
IsEnough none want = ⊥
IsEnough (some h) want = want.bytes ≤ h.bytes + mib

-- The mounted thing is a bind, which is left, or a disk that is as the volume asks.
abbrev pub Unneeded : Volume → Size → Mount → Type 0
Unneeded v size m = (is_bind m ≡ true) ⊎ (IsEnough m.size size × (m.backup ≡ v.backup))

-- What the guest has for the volume leaves the plan nothing to run.
abbrev pub IsSatisfied : GuestConfig → Volume → Kind → Type 0
IsSatisfied g v plain = Unit
IsSatisfied g v (bind path) = mount_at g (dir v) ≢ none
IsSatisfied g v (disk own size) = (m : Mount) × (mount_at g (dir v) ≡ some m) × Unneeded v size m

abbrev pub HasTag : GuestConfig → Option Text → Type 0
HasTag g none = Unit
HasTag g (some t) = has_tag g t ≡ true

pub bool_eq_sound : (a b : Bool) → bool_eq a b ≡ true → a ≡ b
bool_eq_sound true b h = sym h
bool_eq_sound false true h = cc h
bool_eq_sound false false h = refl

module _ (g : GuestConfig) (v : Volume) where
  pub plain_step_iff : (o : Option Mount) → ((plain_step v o).ops ≡ []) ↔ Unit {0}
  unfolding plain_step
  plain_step_iff none = (λ _. tt, λ _. refl)
  plain_step_iff (some m) = (λ _. tt, λ _. refl)

  pub bind_step_iff :
      (path : Text) (o : Option Mount) → ((bind_step v path o).ops ≡ []) ↔ (o ≢ none)
  unfolding bind_step
  bind_step_iff path none = (λ h. absurd (cons-ne-nil _ _ h), λ h. absurd (h refl))
  bind_step_iff path (some m) = (λ _ e. cc e, λ _. nothing)
    where
      nothing : (bind_step v path (some m)).ops ≡ []
      nothing = elim (Bool-cases (is_bind m)) [
        | inl bound ↦ elim (Bool-cases (text_eq m.volume path)) [
          | inl same ↦ rw (bound, same) refl
          | inr differ ↦ rw (bound, differ) refl
        ]
        | inr on_disk ↦ rw on_disk refl
      ]

  pub size_plan_iff :
      (m : Mount) (size : Size) → ((size_plan v m size).ops ≡ []) ↔ IsEnough m.size size
  unfolding size_plan
  size_plan_iff m size = elim (Option-cases m.size) [
    | inl missing ↦ simp (missing, size_plan) (λ h. absurd (cons-ne-nil _ _ h), λ h. absurd h)
    | inr (h, has) ↦ elim (Bool-cases (leb size.bytes (h.bytes + mib))) [
      | inl enough ↦ elim (Bool-cases (ltb (size.bytes + mib) h.bytes)) [
        | inl more ↦ simp (has, enough, more, size_plan) (λ _. ground arith, λ _. refl)
        | inr same ↦ simp (has, enough, same, size_plan) (λ _. ground arith, λ _. refl)
      ]
      | inr less ↦
          simp (has, less, size_plan)
            (λ e. absurd (cons-ne-nil _ _ e), λ fits. absurd (ground arith))
    ]
  ]

  pub backup_ops_iff : (m : Mount) → (backup_ops v m ≡ []) ↔ (m.backup ≡ v.backup)
  unfolding backup_ops
  backup_ops_iff m = elim (Bool-cases (bool_eq m.backup v.backup)) [
    | inl same ↦ rw same (λ _. bool_eq_sound m.backup v.backup same, λ _. refl)
    | inr differ ↦
        rw differ
          (λ h. absurd (cons-ne-nil _ _ h), λ e. absurd (bool_eq_ne m.backup v.backup differ e))
  ]

  disk_step_iff :
      (st : Text) (size : Size) (o : Option Mount)
      → ((disk_step v st size o).ops ≡ []) ↔ ((m : Mount) × (o ≡ some m) × Unneeded v size m)
  unfolding disk_step
  disk_step_iff st size none =
      (λ h. absurd (cons-ne-nil _ _ h), λ (m, e, _). absurd (none-ne-some m e))
  disk_step_iff st size (some m) = elim (Bool-cases (is_bind m)) [
    | inl bound ↦ rw bound (λ _. (m, refl, inl bound), λ _. refl)
    | inr on_disk ↦ rw on_disk (
      λ h. needs h,
      λ (m', e, s). met on_disk (subst (Unneeded v size) (sym (some-injective m m' e)) s),
    )
  ]
    where
      needs :
          (size_plan v m size).ops ++ backup_ops v m ≡ []
          → (m' : Mount) × (some m ≡ some m') × Unneeded v size m'
      needs h =
          let (a, b) = append-eq-nil_iff.0 h in
          (m, refl, inr ((size_plan_iff m size).0 a, (backup_ops_iff m).0 b))

      met : is_bind m ≡ false → Unneeded v size m → (size_plan v m size).ops ++ backup_ops v m ≡ []
      met on_disk (inl bound) = absurd (cc (sym on_disk ∙ bound))
      met on_disk (inr (enough, same)) =
          append-eq-nil_iff.1 ((size_plan_iff m size).1 enough, (backup_ops_iff m).1 same)

  volume_step_iff :
      (default : Option Text) (kind : Kind) (p : Plan)
      → volume_step g default v kind ≡ ok p
      → (p.ops ≡ []) ↔ IsSatisfied g v kind
  unfolding volume_step
  volume_step_iff default plain p h =
      subst (λ (q : Plan). (q.ops ≡ []) ↔ Unit {0}) (ok-injective h)
        (plain_step_iff (mount_at g (dir v)))
  volume_step_iff default (bind path) p h =
      subst (λ (q : Plan). (q.ops ≡ []) ↔ (mount_at g (dir v) ≢ none)) (ok-injective h)
        (bind_step_iff path (mount_at g (dir v)))
  volume_step_iff default (disk own size) p h = elim (Option-cases (or_default own default)) [
    | inl missing ↦ absurd (cc (rw (missing, disk_volume) at h))
    | inr (st, found) ↦
        subst (λ (q : Plan). (q.ops ≡ []) ↔ IsSatisfied g v (disk own size))
          (ok-injective (rw (found, disk_volume) at h)) (disk_step_iff st size (mount_at g (dir v)))
  ]

module _ (g : GuestConfig) (default : Option Text) where
  volume_steps_iff :
      (vs : List Volume) (p q : Plan)
      → volume_steps g default p vs ≡ ok q
      → (q.ops ≡ []) ↔ ((p.ops ≡ []) × All (λ v. IsSatisfied g v v.kind) vs)
  unfolding volume_steps
  volume_steps_iff [] p q h =
      subst (λ (r : Plan). (r.ops ≡ []) ↔ ((p.ops ≡ []) × Unit {0})) (ok-injective h)
        (λ e. (e, tt), λ (e, _). e)
  volume_steps_iff (v ∷ vs) p q h =
      let (step, made, rest) = >>=-eq-ok (volume_step g default v v.kind) _ h in
      let here = volume_step_iff g v default v.kind step made in
      let later =
        volume_steps_iff vs (plan_of (p.ops ++ step.ops) (p.notes ++ step.notes)) q rest in
      (
        λ e. regroup step here (later.0 e),
        λ (a, bc). later.1 (append-eq-nil_iff.1 (a, here.1 bc.0), bc.1),
      )
    where
      regroup :
          (step : Plan)
          → (step.ops ≡ []) ↔ IsSatisfied g v v.kind
          → (p.ops ++ step.ops ≡ []) × All (λ w. IsSatisfied g w w.kind) vs
          → (p.ops ≡ []) × All (λ w. IsSatisfied g w w.kind) (v ∷ vs)
      regroup step here (both, others) =
          let (a, b) = append-eq-nil_iff.0 both in (a, (here.0 b, others))

tag_ops_iff : (g : GuestConfig) (o : Option Text) → (tag_ops g o ≡ []) ↔ HasTag g o
unfolding tag_ops
tag_ops_iff g none = (λ _. tt, λ _. refl)
tag_ops_iff g (some t) = elim (Bool-cases (has_tag g t)) [
  | inl there ↦ rw there (λ _. refl, λ _. refl)
  | inr missing ↦ rw missing (λ h. absurd (cons-ne-nil _ _ h), λ e. absurd (cc e))
]

-- A plan has no operation exactly when nothing is left that a plan may do: both features and the tag
-- are set, something is mounted at the directory of every bind volume, whatever it is, and at that of
-- every disk volume a bind, which a plan leaves, or a disk with the volume's backup flag that is at
-- most one MiB too small. What is mounted otherwise than asked is left to the notes.
pub build-ops-eq-nil_iff :
    (i : Inputs) (p : Plan)
    → build i ≡ ok p
    → (p.ops ≡ []) ↔ (
        HasFeatures i.guest.features
        × HasTag i.guest i.tag
        × All (λ v. IsSatisfied i.guest v v.kind) i.volumes)
unfolding build
build-ops-eq-nil_iff i p h =
    let g = i.guest in
    let (_, _, h₁) = >>=-eq-ok (if g.is_template then err (is_a_template g.vmid) else ok tt) _ h in
    let (q, looped, last) =
      >>=-eq-ok (volume_steps g (storage_for i.config i.node) (start_plan i) i.volumes) _ h₁ in
    let loop = volume_steps_iff g (storage_for i.config i.node) i.volumes (start_plan i) q looped in
    let features = feature_ops-eq-nil_iff g.features in
    let tags = tag_ops_iff g i.tag in
    subst
      (λ (r : Plan).
        (r.ops ≡ [])
        ↔ (HasFeatures g.features × HasTag g i.tag × All (λ v. IsSatisfied g v v.kind) i.volumes))
      (ok-injective last)
      (
        λ e.
            let (start, vs) = loop.0 e in
            let (a, b) = append-eq-nil_iff.0 start in (features.0 a, tags.0 b, vs),
        λ (f, t, vs). loop.1 (append-eq-nil_iff.1 (features.1 f, tags.1 t), vs),
      )
