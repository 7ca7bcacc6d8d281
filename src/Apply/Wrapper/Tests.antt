-- ===== src/Apply/Wrapper/Tests.antt =====
-- The pct half at a guest whose disk is to grow, and the theorem there.
use pve_compose.Base.{
  ◌*◌, ◌≡◌, refl, Bool, true, none, some, List, [], ◌∷◌, codes, ok, text_dec, strip_prefix,
}
use pve_compose.Base.Dict.{or_insert}
use pve_compose.Size.{gib}
use pve_compose.Config.{default_config}
use pve_compose.Doc.{default_policy}
use pve_compose.Spec.Yaml.{mapping, end}
use pve_compose.Spec.Volumes.{disk, dir}
use pve_compose.Pct.Mount.{is_bind}
use pve_compose.Pct.Guest.{mount_at, has_tag}
use pve_compose.Ops.{Ctx, Guest}
use pve_compose.Plan.Build.{Plan, build}
use pve_compose.Plan.Execute.{Call, execute}
use pve_compose.Plan.Build.Tests.{guest}
use pve_compose.Apply.Wrapper.{pct_plan, pct_apply_guest}
use pve_compose.Apply.Wrapper.Restart.{Applied, pct_apply_guest-Applied}

abbrev pub ctx : Ctx
ctx = record { node = codes "n1"; config = default_config; tag = some (codes "compose") }

-- Both features are set already.
abbrev pub loaded : Guest
loaded = record {
  config = record guest {
    features = (codes "keyctl", codes "1") ∷ (codes "nesting", codes "1") ∷ [];
  };
  read = record {
    vmid = 101;
    text = codes "spec: {}";
    digest = codes "d1";
    doc = record { stack = record { owner = none }; policy = default_policy; spec = mapping end };
  };
  volumes =
      record {
        name = codes "db";
        kind = disk (some (codes "tank")) (record { bytes = 20 * gib });
        owner = none;
        backup = true;
      }
      ∷ [];
}

abbrev pub all_run : List Call → Bool
all_run _ = true

grown : (pct_apply_guest all_run ctx loaded).0 ≡ ok 1
unfolding pct_apply_guest build or_insert text_dec has_tag mount_at dir is_bind strip_prefix execute
grown = refl

pct_apply_guest-Applied_example :
    (p : Plan) × (pct_plan ctx loaded ≡ ok p)
    × Applied all_run p 1 (pct_apply_guest all_run ctx loaded).1
pct_apply_guest-Applied_example = pct_apply_guest-Applied all_run ctx loaded 1 grown
