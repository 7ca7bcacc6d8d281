-- ===== src/Doc/Tests.antt =====
-- A document and a hostname, and the theorems there.
use pve_compose.Base.{
  ◌≡◌, refl, true, Option, none, some, Text, codes, ok, is_some, text_eq, text_dec, if◌then◌else◌,
}
use pve_compose.Spec.Yaml.{mapping, end, as_mapping}
use pve_compose.Spec.Bounds.{split_owner}
use pve_compose.Doc.{Doc, default_policy, parse}
use pve_compose.Doc.Project.{is_project_name, project_name_from, project_name_from-is_project_name}
use pve_compose.Doc.Parsed.{OwnerIsSafe, parse-OwnerIsSafe}

abbrev doc : Doc
doc = record {
  stack = record { owner = some (codes "1000:100") };
  policy = default_policy;
  spec = mapping end;
}

abbrev from_str : Text → Option Doc
from_str text = if text_eq text (codes "spec: {}") then some doc else none

parsed : parse from_str (codes "spec: {}") ≡ ok doc
unfolding parse split_owner text_dec as_mapping
parsed = refl

parse-OwnerIsSafe_example :
    (is_some (as_mapping (mapping end)) ≡ true) × OwnerIsSafe (some (codes "1000:100"))
parse-OwnerIsSafe_example = parse-OwnerIsSafe from_str (codes "spec: {}") doc parsed

named : project_name_from (codes "-Web.Server") ≡ codes "web-server"
unfolding project_name_from
named = refl

project_name_from-is_project_name_example :
    is_project_name (project_name_from (codes "-Web.Server")) ≡ true
project_name_from-is_project_name_example = project_name_from-is_project_name (codes "-Web.Server")
