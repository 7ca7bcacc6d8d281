-- ===== src/Spec/Volumes/Tests.antt =====
-- The volumes of a concrete document, and the theorems there.
use pve_compose.Base.{◌≡◌, refl, true, Option, none, some, [], ◌∷◌, Text, codes, ok, All, text_dec}
use pve_compose.Config.{Limits}
use pve_compose.Spec.Yaml.{Value, null, string, mapping, Mapping, end, entry, as_str, is_null, get}
use pve_compose.Spec.Bounds.{valid_volume_name, check_bind_path, check_clean_absolute, under}
use pve_compose.Spec.Volumes.{
  plain, bind, Volume, XPve, def_of, is_external, x_pve_of, volume_of, check_owner, kind_of,
  volumes_from, volumes,
}
use pve_compose.Spec.Volumes.Permitted.{IsPermitted, volumes-IsPermitted}

abbrev pub limits : Limits
limits = record { bind_roots = codes "/srv" ∷ []; storages = codes "tank" ∷ []; max_disk_gib = 64 }

-- A reader of `x-pve: { path: … }` alone.
abbrev pub from_path : Option Text → Option XPve
from_path none = none
from_path (some p) =
    some (record { storage = none; size = none; path = some p; owner = none; backup = none })

abbrev pub path_text : Option Value → Option Text
path_text none = none
path_text (some v) = as_str v

abbrev pub from_value : Value → Option XPve
from_value v = from_path (path_text (get (codes "path") v))

abbrev pub declared : Mapping
declared = entry (string (codes "cache")) null (
    entry (string (codes "media"))
      (mapping (
        entry (string (codes "x-pve"))
          (mapping (entry (string (codes "path")) (string (codes "/srv/media")) end)) end))
      end)

abbrev pub cache : Volume
cache = record { name = codes "cache"; kind = plain; owner = none; backup = true }

abbrev pub media : Volume
media = record {
  name = codes "media";
  kind = bind (codes "/srv/media");
  owner = none;
  backup = true;
}

pub read :
    volumes from_value (mapping (entry (string (codes "volumes")) (mapping declared) end)) limits
    ≡ ok (cache ∷ media ∷ [])
unfolding volumes get text_dec is_null volumes_from as_str valid_volume_name def_of is_external
    x_pve_of volume_of check_owner kind_of check_bind_path check_clean_absolute under
read = refl

read_declared : volumes_from from_value declared limits ≡ ok (cache ∷ media ∷ [])
unfolding volumes get text_dec is_null volumes_from as_str valid_volume_name def_of is_external
    x_pve_of volume_of check_owner kind_of check_bind_path check_clean_absolute under
read_declared = refl

volumes-IsPermitted_example : All (IsPermitted limits) (cache ∷ media ∷ [])
volumes-IsPermitted_example =
    volumes-IsPermitted from_value limits
      (mapping (entry (string (codes "volumes")) (mapping declared) end)) (cache ∷ media ∷ []) read

cache-IsPermitted : IsPermitted limits cache
cache-IsPermitted =
    (volumes-IsPermitted from_value limits
      (mapping (entry (string (codes "volumes")) (mapping declared) end)) (cache ∷ media ∷ [])
      read).0
