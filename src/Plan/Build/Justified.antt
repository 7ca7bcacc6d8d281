-- ===== src/Plan/Build/Justified.antt =====
-- Why an operation of src/plan.rs stands in a plan, for every operation.
use mathlib.Core.List.{cons-ne-nil}
use native.Mathlib.Omega.{arith}
use pve_compose.Base.{
  ◌+◌, ◌<◌, ◌≡◌, ◌≢◌, ◌⊎◌, inl, inr, refl, subst, Bool, true, false, Option, none, some, List, [],
  ◌∷◌, ◌++◌, Text, text_eq, All, All-append, All-map, All-Any, Any, Bool-cases, Option-cases,
  if◌then◌else◌, ltb, leb, ok, err, >>=-eq-ok, ok-injective,
}
use pve_compose.Size.{Size, mib}
use pve_compose.Config.{storage_for}
use pve_compose.Spec.Volumes.{Kind, disk, bind, plain, Volume, dir}
use pve_compose.Pct.Mount.{Mount, is_bind}
use pve_compose.Pct.Guest.{GuestConfig, mount_at, has_tag}
use pve_compose.Plan.Build.{
  Op, set_features, add_tag, create_disk, create_bind, resize, set_backup, Plan, Inputs,
  is_a_template, wanted_features, features_text, feature_ops, features_eq, tag_ops, plan_of,
  plain_step, bind_step, size_plan, backup_ops, bool_eq, disk_step, or_default, disk_volume,
  volume_step, volume_steps, start_plan, build,
}
use pve_compose.Plan.Build.Features.{HasFeatures, feature_ops-eq-nil_iff}

-- The operation answers to the volume, in the guest as it is.
module _ (g : GuestConfig) (default : Option Text) (v : Volume) where
  abbrev pub VolumeOp : Op → Type 0
  VolumeOp (create_disk mp st size backup) =
      (own : Option Text) × (v.kind ≡ disk own size)
      × (or_default own default ≡ some st)
      × (mp ≡ dir v)
      × (mount_at g mp ≡ none)
      × (backup ≡ v.backup)
  VolumeOp (create_bind mp path) = (v.kind ≡ bind path) × (mp ≡ dir v) × (mount_at g mp ≡ none)
  VolumeOp (resize key mp from to) =
      (m : Mount) × (own : Option Text) × (v.kind ≡ disk own to)
      × (mp ≡ dir v)
      × (mount_at g mp ≡ some m)
      × (m.key ≡ key)
      × (is_bind m ≡ false)
      × (((m.size ≡ none) × (from.bytes ≡ 0))
          ⊎ ((m.size ≡ some from) × (from.bytes + mib < to.bytes)))
  VolumeOp (set_backup m backup) =
      (own : Option Text) × (size : Size) × (v.kind ≡ disk own size)
      × (mount_at g (dir v) ≡ some m)
      × (is_bind m ≡ false)
      × (backup ≡ v.backup)
      × (m.backup ≢ backup)
  VolumeOp _ = ⊥

abbrev pub Justified : Inputs → Op → Type 0
Justified i (set_features s) =
    (s ≡ features_text (wanted_features i.guest.features)) × ¬ HasFeatures i.guest.features
Justified i (add_tag t) = (i.tag ≡ some t) × (has_tag i.guest t ≡ false)
Justified i op = Any (λ v. VolumeOp i.guest (storage_for i.config i.node) v op) i.volumes

pub bool_eq_ne : (a b : Bool) → bool_eq a b ≡ false → a ≢ b
bool_eq_ne true true h = absurd (cc h)
bool_eq_ne true false h = λ e. cc e
bool_eq_ne false true h = λ e. cc e
bool_eq_ne false false h = absurd (cc h)

module _ (g : GuestConfig) (default : Option Text) (v : Volume) where
  plain_step-VolumeOp : (o : Option Mount) → All (VolumeOp g default v) (plain_step v o).ops
  unfolding plain_step
  plain_step-VolumeOp none = tt
  plain_step-VolumeOp (some m) = tt

  bind_step-VolumeOp :
      (path : Text) (o : Option Mount)
      → v.kind ≡ bind path
      → mount_at g (dir v) ≡ o
      → All (VolumeOp g default v) (bind_step v path o).ops
  unfolding bind_step
  bind_step-VolumeOp path none k e = ((k, refl, e), tt)
  bind_step-VolumeOp path (some m) k e = elim (Bool-cases (is_bind m)) [
    | inl bound ↦ elim (Bool-cases (text_eq m.volume path)) [
      | inl same ↦ rw (bound, same) tt
      | inr differ ↦ rw (bound, differ) tt
    ]
    | inr on_disk ↦ rw on_disk tt
  ]

  size_plan-VolumeOp :
      (m : Mount) (own : Option Text) (size : Size)
      → v.kind ≡ disk own size
      → mount_at g (dir v) ≡ some m
      → is_bind m ≡ false
      → All (VolumeOp g default v) (size_plan v m size).ops
  unfolding size_plan
  size_plan-VolumeOp m own size k e b = elim (Option-cases m.size) [
    | inl missing ↦
        simp (missing, size_plan) ((m, own, k, refl, e, refl, b, inl (missing, refl)), tt)
    | inr (h, has) ↦ elim (Bool-cases (leb size.bytes (h.bytes + mib))) [
      | inl enough ↦ elim (Bool-cases (ltb (size.bytes + mib) h.bytes)) [
        | inl more ↦ simp (has, enough, more, size_plan) tt
        | inr same ↦ simp (has, enough, same, size_plan) tt
      ]
      | inr less ↦
          simp (has, less, size_plan) ((m, own, k, refl, e, refl, b, inr (has, ground arith)), tt)
    ]
  ]

  backup_ops-VolumeOp :
      (m : Mount) (own : Option Text) (size : Size)
      → v.kind ≡ disk own size
      → mount_at g (dir v) ≡ some m
      → is_bind m ≡ false
      → All (VolumeOp g default v) (backup_ops v m)
  unfolding backup_ops
  backup_ops-VolumeOp m own size k e b = elim (Bool-cases (bool_eq m.backup v.backup)) [
    | inl same ↦ rw same tt
    | inr differ ↦ rw differ ((own, size, k, e, b, refl, bool_eq_ne m.backup v.backup differ), tt)
  ]

  disk_step-VolumeOp :
      (st : Text) (own : Option Text) (size : Size) (o : Option Mount)
      → v.kind ≡ disk own size
      → or_default own default ≡ some st
      → mount_at g (dir v) ≡ o
      → All (VolumeOp g default v) (disk_step v st size o).ops
  unfolding disk_step
  disk_step-VolumeOp st own size none k s e = ((own, k, s, refl, e, refl), tt)
  disk_step-VolumeOp st own size (some m) k s e = elim (Bool-cases (is_bind m)) [
    | inl bound ↦ rw bound tt
    | inr on_disk ↦ rw on_disk (
        All-append _ (size_plan v m size).ops (backup_ops v m)
          (size_plan-VolumeOp m own size k e on_disk) (backup_ops-VolumeOp m own size k e on_disk))
  ]

  volume_step-VolumeOp :
      (kind : Kind) (p : Plan)
      → v.kind ≡ kind
      → volume_step g default v kind ≡ ok p
      → All (VolumeOp g default v) p.ops
  unfolding volume_step
  volume_step-VolumeOp plain p k h =
      subst (λ (q : Plan). All (VolumeOp g default v) q.ops) (ok-injective h)
        (plain_step-VolumeOp (mount_at g (dir v)))
  volume_step-VolumeOp (bind path) p k h =
      subst (λ (q : Plan). All (VolumeOp g default v) q.ops) (ok-injective h)
        (bind_step-VolumeOp path (mount_at g (dir v)) k refl)
  volume_step-VolumeOp (disk own size) p k h = elim (Option-cases (or_default own default)) [
    | inl missing ↦ absurd (cc (rw (missing, disk_volume) at h))
    | inr (st, found) ↦
        subst (λ (q : Plan). All (VolumeOp g default v) q.ops)
          (ok-injective (rw (found, disk_volume) at h))
          (disk_step-VolumeOp st own size (mount_at g (dir v)) k found refl)
  ]

not-Any : (vs : List Volume) → ¬ Any (λ _. ⊥) vs
not-Any [] h = h
not-Any (v ∷ vs) (inl h) = h
not-Any (v ∷ vs) (inr h) = not-Any vs h

module _ (g : GuestConfig) (default : Option Text) (P : Op → Type 0) where
  -- What holds of every operation that answers to a volume holds of every operation of the loop.
  volume_steps-All :
      (vs : List Volume) (p q : Plan)
      → All (λ v. (op : Op) → VolumeOp g default v op → P op) vs
      → All P p.ops
      → volume_steps g default p vs ≡ ok q
      → All P q.ops
  unfolding volume_steps
  volume_steps-All [] p q _ start h = subst (λ (r : Plan). All P r.ops) (ok-injective h) start
  volume_steps-All (v ∷ vs) p q (here, later) start h =
      let (step, made, rest) = >>=-eq-ok (volume_step g default v v.kind) _ h in
      volume_steps-All vs (plan_of (p.ops ++ step.ops) (p.notes ++ step.notes)) q later
        (All-append P p.ops step.ops start
          (All-map here step.ops (volume_step-VolumeOp g default v v.kind step refl made)))
        rest

Justified-of_VolumeOp :
    (i : Inputs) (op : Op)
    → Any (λ v. VolumeOp i.guest (storage_for i.config i.node) v op) i.volumes
    → Justified i op
Justified-of_VolumeOp i (set_features s) h = absurd (not-Any i.volumes h)
Justified-of_VolumeOp i (add_tag t) h = absurd (not-Any i.volumes h)
Justified-of_VolumeOp i (create_disk mp st size b) h = h
Justified-of_VolumeOp i (create_bind mp path) h = h
Justified-of_VolumeOp i (resize key mp from to) h = h
Justified-of_VolumeOp i (set_backup m b) h = h

feature_ops-Justified : (i : Inputs) → All (Justified i) (feature_ops i.guest.features)
unfolding feature_ops
feature_ops-Justified i =
    let f = i.guest.features in
    elim (Bool-cases (features_eq (wanted_features f) f)) [
      | inl same ↦ rw same tt
      | inr differ ↦
          rw differ ((refl, λ has. differ_clash differ ((feature_ops-eq-nil_iff f).1 has)), tt)
    ]
  where
    differ_clash :
        features_eq (wanted_features i.guest.features) i.guest.features ≡ false
        → feature_ops i.guest.features ≡ []
        → ⊥
    differ_clash differ e = cons-ne-nil _ _ (rw (differ, feature_ops) at e)

tag_ops-Justified :
    (i : Inputs) (o : Option Text) → i.tag ≡ o → All (Justified i) (tag_ops i.guest o)
unfolding tag_ops
tag_ops-Justified i none e = tt
tag_ops-Justified i (some t) e = elim (Bool-cases (has_tag i.guest t)) [
  | inl there ↦ rw there tt
  | inr missing ↦ rw missing ((e, missing), tt)
]

-- Every operation of a plan is called for. The features are written only when one that docker needs
-- is missing, and the tag is added only when it is missing. Every other operation answers to a
-- volume of the document: a disk or a bind is created only where nothing is mounted; a resize is of
-- a disk mounted at the volume's directory, and to a size that exceeds the one that PVE reports by
-- more than one MiB, where PVE reports one; a backup flag is rewritten only on such a disk, and only
-- to the other value, which the document asks for.
pub build-Justified : (i : Inputs) (p : Plan) → build i ≡ ok p → All (Justified i) p.ops
unfolding build
build-Justified i p h =
    let (_, _, h₁) =
      >>=-eq-ok (if i.guest.is_template then err (is_a_template i.guest.vmid) else ok tt) _ h in
    let (q, looped, last) =
      >>=-eq-ok (volume_steps i.guest (storage_for i.config i.node) (start_plan i) i.volumes) _
        h₁ in
    subst (λ (r : Plan). All (Justified i) r.ops) (ok-injective last)
      (volume_steps-All i.guest (storage_for i.config i.node) (Justified i) i.volumes (start_plan i)
        q
        (All-map (λ v f op found. Justified-of_VolumeOp i op (f op found)) i.volumes
          (All-Any (VolumeOp i.guest (storage_for i.config i.node)) i.volumes))
        (All-append (Justified i) (feature_ops i.guest.features) (tag_ops i.guest i.tag)
          (feature_ops-Justified i) (tag_ops-Justified i i.tag refl))
        looped)
