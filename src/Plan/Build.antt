-- ===== src/Plan/Build.antt =====
-- src/plan.rs: `build`, which is pure.
pub mod Features
pub mod Justified
pub mod Converged
pub mod Total
pub mod Printed
pub mod Tests
use pve_compose.Base.{
  ℕ, ◌+◌, ◌^◌, Bool, true, false, not, ◌&&◌, ◌||◌, Option, none, some, List, [], ◌∷◌, ◌++◌, map,
  Text, codes, text_eq, strip_prefix, join, any, is_empty, ltb, leb, if◌then◌else◌, Result, ok, err,
  ◌>>=◌, ◌>>◌,
}
use pve_compose.Base.Dict.{Dict, or_insert}
use pve_compose.Size.{Size, mib}
use pve_compose.Config.{Config, storage_for}
use pve_compose.Layout.{volumes_dir}
use pve_compose.Spec.Volumes.{Kind, disk, bind, plain, Volume, dir}
use pve_compose.Pct.Mount.{Mount, is_bind, storage}
use pve_compose.Pct.Guest.{GuestConfig, mount_at, has_tag}

pub data Op : Type 0 where
  set_features : Text → Op
  add_tag : Text → Op
  create_disk : (mp storage : Text) (size : Size) (backup : Bool) → Op
  create_bind : (mp path : Text) → Op
  resize : (key mp : Text) (from to : Size) → Op
  set_backup : (mount : Mount) (backup : Bool) → Op

-- One constructor for each note, with what its text names.
pub data Note : Type 0 where
  privileged : Note
  plain_but_mounted : (name key dir : Text) → Note
  bind_but_disk : (name path key dir : Text) → Note
  bound_elsewhere : (name volume path : Text) → Note
  disk_but_bind : (name key dir volume : Text) → Note
  other_storage : (name is_on wanted : Text) → Note
  never_shrink : (name : Text) (has wanted : Size) → Note
  orphan : (key mp name : Text) → Note

pub record Plan : Type 0 where
  pub ops : List Op
  pub notes : List Note

pub data PlanError : Type 0 where
  is_a_template : (vmid : ℕ) → PlanError
  no_storage : (name : Text) → PlanError

-- `Inputs`. The document itself is not read by the plan: its volumes are.
pub record Inputs : Type 0 where
  pub node : Text
  pub config : Config
  pub tag : Option Text
  pub guest : GuestConfig
  pub volumes : List Volume

abbrev pub disk_size_satisfied : Option Size → Size → Bool
disk_size_satisfied none want = false
disk_size_satisfied (some h) want = leb want.bytes (h.bytes + mib)

-- The features with the two that docker needs.
unfoldable pub wanted_features : Dict Text → Dict Text
wanted_features features =
    or_insert (codes "keyctl") (codes "1") (or_insert (codes "nesting") (codes "1") features)

pub features_eq : Dict Text → Dict Text → Bool
features_eq [] [] = true
features_eq [] (_ ∷ _) = false
features_eq (_ ∷ _) [] = false
features_eq ((k, v) ∷ m) ((j, w) ∷ n) = text_eq k j && text_eq v w && features_eq m n

abbrev pub features_text : Dict Text → Text
features_text m = join (codes ",") (map (λ (k, v). k ++ codes "=" ++ v) m)

unfoldable pub feature_ops : Dict Text → List Op
unfolding features_eq wanted_features join
feature_ops features =
    let want = wanted_features features in
    if features_eq want features then [] else set_features (features_text want) ∷ []

unfoldable pub tag_ops : GuestConfig → Option Text → List Op
tag_ops g none = []
tag_ops g (some t) = if has_tag g t then [] else add_tag t ∷ []

abbrev pub plan_of : List Op → List Note → Plan
plan_of ops notes = record { ops = ops; notes = notes }

-- What one volume adds to the plan.
unfoldable pub plain_step : Volume → Option Mount → Plan
plain_step v none = plan_of [] []
plain_step v (some m) = plan_of [] (plain_but_mounted v.name m.key (dir v) ∷ [])

unfoldable pub bind_step : Volume → Text → Option Mount → Plan
bind_step v path none = plan_of (create_bind (dir v) path ∷ []) []
bind_step v path (some m) =
    if not (is_bind m)
    then plan_of [] (bind_but_disk v.name path m.key (dir v) ∷ [])
    else if not (text_eq m.volume path)
    then plan_of [] (bound_elsewhere v.name m.volume path ∷ [])
    else plan_of [] []

pub storage_notes : Volume → Text → Option Text → List Note
storage_notes v wanted none = []
storage_notes v wanted (some st) =
    if not (text_eq st wanted) then other_storage v.name st wanted ∷ [] else []

abbrev pub size_or_zero : Option Size → Size
size_or_zero none = record { bytes = 0 }
size_or_zero (some s) = s

unfoldable pub size_plan : Volume → Mount → Size → Plan
size_plan v m size =
    if not (disk_size_satisfied m.size size)
    then plan_of (resize m.key (dir v) (size_or_zero m.size) size ∷ []) []
    else if ltb (size.bytes + mib) (size_or_zero m.size).bytes
    then plan_of [] (never_shrink v.name (size_or_zero m.size) size ∷ [])
    else plan_of [] []

abbrev pub bool_eq : Bool → Bool → Bool
bool_eq true b = b
bool_eq false b = not b

unfoldable pub backup_ops : Volume → Mount → List Op
backup_ops v m = if not (bool_eq m.backup v.backup) then set_backup m v.backup ∷ [] else []

unfoldable pub disk_step : Volume → Text → Size → Option Mount → Plan
unfolding storage_notes size_plan backup_ops
disk_step v st size none = plan_of (create_disk (dir v) st size v.backup ∷ []) []
disk_step v st size (some m) =
    let sized = size_plan v m size in
    if is_bind m
    then plan_of [] (disk_but_bind v.name m.key (dir v) m.volume ∷ [])
    else plan_of (sized.ops ++ backup_ops v m) (storage_notes v st (storage m) ++ sized.notes)

-- `storage.or_else(|| default_storage)`
abbrev pub or_default : Option Text → Option Text → Option Text
or_default none default = default
or_default (some s) default = some s

unfoldable pub disk_volume : GuestConfig → Volume → Option Text → Size → Result PlanError Plan
unfolding disk_step
disk_volume g v none size = err (no_storage v.name)
disk_volume g v (some st) size = ok (disk_step v st size (mount_at g (dir v)))

unfoldable pub volume_step : GuestConfig → Option Text → Volume → Kind → Result PlanError Plan
unfolding plain_step bind_step disk_volume
volume_step g default v plain = ok (plain_step v (mount_at g (dir v)))
volume_step g default v (bind path) = ok (bind_step v path (mount_at g (dir v)))
volume_step g default v (disk st size) = disk_volume g v (or_default st default) size

-- The loop over the volumes, behind a plan so far.
unfoldable pub volume_steps : GuestConfig → Option Text → Plan → List Volume → Result PlanError Plan
volume_steps g default p [] = ok p
volume_steps g default p (v ∷ vs) = do
  step ← volume_step g default v v.kind
  volume_steps g default (plan_of (p.ops ++ step.ops) (p.notes ++ step.notes)) vs

-- The orphans: mounts under the volumes directory that no volume names.
abbrev pub orphan_of : List Volume → Mount → Text → Option Text → List Note
orphan_of vs m mp none = []
orphan_of vs m mp (some name) =
    if any (λ v. text_eq v.name name) vs then [] else orphan m.key mp name ∷ []

pub orphan_at : List Volume → Mount → Option Text → List Note
orphan_at vs m none = []
orphan_at vs m (some mp) = orphan_of vs m mp (strip_prefix mp (volumes_dir ++ codes "/"))

pub orphans : List Volume → List Mount → List Note
unfolding orphan_at
orphans vs [] = []
orphans vs (m ∷ ms) = orphan_at vs m m.mp ++ orphans vs ms

abbrev pub privilege_notes : GuestConfig → List Note
privilege_notes g = if not g.unprivileged then privileged ∷ [] else []

-- The plan before the loop over the volumes.
abbrev pub start_plan : Inputs → Plan
start_plan i =
    let g = i.guest in plan_of (feature_ops g.features ++ tag_ops g i.tag) (privilege_notes g)

unfoldable pub build : Inputs → Result PlanError Plan
unfolding feature_ops tag_ops volume_steps volume_step orphans
build i = do
  let g = i.guest
  if g.is_template then err (is_a_template g.vmid) else ok tt
  p ← volume_steps g (storage_for i.config i.node) (start_plan i) i.volumes
  ok (plan_of p.ops (p.notes ++ orphans i.volumes g.mounts))
