-- ===== src/Plan/Build/Tests.antt =====
-- Plans at a concrete guest, and the theorems there.
use pve_compose.Base.{
  ◌*◌, ◌≡◌, ◌↔◌, refl, true, false, none, some, [], ◌∷◌, codes, All, ok, text_dec, strip_prefix,
  split,
}
use pve_compose.Base.Dict.{or_insert}
use pve_compose.Size.{gib}
use pve_compose.Config.{default_config, storage_for}
use pve_compose.Spec.Volumes.{disk, bind, Volume, dir}
use pve_compose.Pct.Mount.{Mount, is_bind, storage}
use pve_compose.Pct.Guest.{GuestConfig, mount_at, has_tag}
use pve_compose.Plan.Build.{set_features, create_bind, resize, Plan, Inputs, build}
use pve_compose.Plan.Build.Features.{HasFeatures}
use pve_compose.Plan.Build.Justified.{Justified, build-Justified}
use pve_compose.Plan.Build.Converged.{IsSatisfied, HasTag, build-ops-eq-nil_iff}
use pve_compose.Plan.Build.Total.{IsStored, build_total_iff}

abbrev pub mount : Mount
mount = record {
  key = codes "mp0";
  volume = codes "tank:vol";
  mp = some (codes "/opt/stack/volumes/db");
  size = some (record { bytes = 8 * gib });
  backup = true;
  other = [];
}

abbrev pub guest : GuestConfig
guest = record {
  vmid = 101;
  hostname = none;
  unprivileged = true;
  features = (codes "nesting", codes "1") ∷ [];
  tags = codes "compose" ∷ [];
  rootfs = none;
  mounts = mount ∷ [];
  is_template = false;
}

abbrev pub db : Volume
db = record {
  name = codes "db";
  kind = disk (some (codes "tank")) (record { bytes = 20 * gib });
  owner = none;
  backup = true;
}

abbrev media : Volume
media = record { name = codes "media"; kind = bind (codes "/srv"); owner = none; backup = true }

abbrev pub inputs : Inputs
inputs = record {
  node = codes "n1";
  config = default_config;
  tag = some (codes "compose");
  guest = guest;
  volumes = db ∷ media ∷ [];
}

abbrev pub planned : Plan
planned = record {
  ops =
      set_features (codes "keyctl=1,nesting=1")
      ∷ resize (codes "mp0") (codes "/opt/stack/volumes/db") (record { bytes = 8 * gib })
          (record { bytes = 20 * gib })
      ∷ create_bind (codes "/opt/stack/volumes/media") (codes "/srv")
      ∷ [];
  notes = [];
}

pub grown : build inputs ≡ ok planned
unfolding build or_insert mount_at text_dec has_tag dir is_bind strip_prefix storage split
grown = refl

build-Justified_example : All (Justified inputs) planned.ops
build-Justified_example = build-Justified inputs planned grown

build-ops-eq-nil_iff_example : (planned.ops ≡ []) ↔ (
    HasFeatures guest.features
    × HasTag guest (some (codes "compose"))
    × All (λ v. IsSatisfied guest v v.kind) (db ∷ media ∷ []))
build-ops-eq-nil_iff_example = build-ops-eq-nil_iff inputs planned grown

build_total_iff_example : ((p : Plan) × (build inputs ≡ ok p)) ↔ (
    (guest.is_template ≡ false)
    × All (λ v. IsStored (storage_for default_config (codes "n1")) v.kind) (db ∷ media ∷ []))
build_total_iff_example = build_total_iff inputs
