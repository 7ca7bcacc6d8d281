-- ===== src/Ops/Status/Tests.antt =====
-- A row for a guest that runs and whose wrapper needs nothing.
use pve_compose.Base.{◌&&◌, ◌≡◌, true, false, none, some, [], ok, codes}
use pve_compose.Config.{default_config}
use pve_compose.Doc.{default_policy}
use pve_compose.Spec.Yaml.{mapping, end}
use pve_compose.Pct.Listing.{Listed}
use pve_compose.Ops.{Ctx, Read, load_with}
use pve_compose.Ops.Status.{both, row}
use pve_compose.Ops.Status.Applied.{is_applied, loaded_done, row-is_applied}

abbrev ctx : Ctx
ctx = record { node = codes "n1"; config = default_config; tag = some (codes "compose") }

abbrev listed : Listed
listed = record { vmid = 101; name = codes "db"; running = true; tags = []; is_template = false }

abbrev read : Read
read = record {
  vmid = 101;
  text = codes "spec: {}";
  digest = codes "d1";
  doc = record { stack = record { owner = none }; policy = default_policy; spec = mapping end };
}

row-is_applied_example :
    is_applied (row (λ v. none) ctx listed both none (ok none) none (some read)).state ≡ (
      listed.running
      && loaded_done ctx read.digest (load_with (λ v. none) ctx none read) (ok none) none)
row-is_applied_example = row-is_applied (λ v. none) ctx listed none (ok none) none read
