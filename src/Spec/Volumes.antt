-- ===== src/Spec/Volumes.antt =====
-- src/spec.rs: the managed volumes of a compose document.
pub mod Permitted
pub mod Names
pub mod Tests
use pve_compose.Base.{
  Bool, true, false, ◌&&◌, Option, none, some, List, [], ◌∷◌, ◌++◌, Text, codes, is_some,
  if◌then◌else◌, Result, ok, err, ◌>>=◌, ◌>>◌, guard, ok_or, map_err,
}
use pve_compose.Size.{Size}
use pve_compose.Config.{Limits}
use pve_compose.Layout.{volumes_dir}
use pve_compose.Doc.Flags.{flag_of}
use pve_compose.Spec.Yaml.{
  Value, null, mapping, Mapping, end, entry, as_str, as_mapping, is_null, get,
}
use pve_compose.Spec.Bounds.{
  SpecError, Checked, volumes_not_map, name_not_text, bad_name, not_map, bad_x_pve, backup_of_bind,
  path_exclusive, storage_needs_size, in_owner, check_bind_path, check_storage, check_size,
  valid_volume_name, split_owner,
}

pub data Kind : Type 0 where
  disk : (storage : Option Text) (size : Size) → Kind
  bind : (path : Text) → Kind
  plain : Kind

pub record Volume : Type 0 where
  pub name : Text
  pub kind : Kind
  pub owner : Option Text
  pub backup : Bool

unfoldable pub dir : Volume → Text
dir v = volumes_dir ++ codes "/" ++ v.name

-- The derived reader of this struct is `serde`'s, and a parameter below.
pub record XPve : Type 0 where
  pub storage : Option Text
  pub size : Option Size
  pub path : Option Text
  pub owner : Option Text
  pub backup : Option Bool

check_owner : Text → Option Text → Checked
check_owner name none = ok tt
check_owner name (some o) = map_err (in_owner name) (split_owner o) >>= λ _. ok tt

check_named_storage : Text → Option Text → Limits → Checked
check_named_storage name none limits = ok tt
check_named_storage name (some s) limits = check_storage name s limits

-- The `match` on the path, the storage and the size.
kind_of : Text → Option Text → Option Text → Option Size → Bool → Limits → Result SpecError Kind
kind_of name (some p) none none has_backup limits = do
  if has_backup then err (backup_of_bind name) else ok tt
  check_bind_path name p limits
  ok (bind p)
kind_of name (some p) storage size has_backup limits = err (path_exclusive name)
kind_of name none storage (some size) has_backup limits = do
  check_size name size limits
  check_named_storage name storage limits
  ok (disk storage size)
kind_of name none (some s) none has_backup limits = err (storage_needs_size name)
kind_of name none none none has_backup limits = ok plain

abbrev pub or_true_flag : Option Bool → Bool
or_true_flag none = true
or_true_flag (some b) = b

volume_of : Text → Option XPve → Limits → Result SpecError Volume
volume_of name none limits = ok (record { name = name; kind = plain; owner = none; backup = true })
volume_of name (some x) limits = do
  check_owner name x.owner
  kind ← kind_of name x.path x.storage x.size (is_some x.backup) limits
  ok (record { name = name; kind = kind; owner = x.owner; backup = or_true_flag x.backup })

-- A volume's definition is null or a map; a tagged value is neither.
def_of : Text → Value → Result SpecError Value
def_of name null = ok null
def_of name (mapping m) = ok (mapping m)
def_of name v = err (not_map name)

abbrev is_true : Option Bool → Bool
is_true (some true) = true
is_true _ = false

abbrev flag_at : Option Value → Option Bool
flag_at none = none
flag_at (some v) = flag_of v

pub is_external : Value → Bool
is_external def = is_true (flag_at (get (codes "external") def))

-- `serde_yaml_ng::from_value::<XPve>` is `from_value`; `none` is its error.
module _ (from_value : Value → Option XPve) where
  x_pve_of : Text → Option Value → Result SpecError (Option XPve)
  x_pve_of name none = ok none
  x_pve_of name (some null) = ok none
  x_pve_of name (some v) = ok_or (from_value v) (bad_x_pve name) >>= λ x. ok (some x)

  -- The loop over the entries of `volumes`.
  pub volumes_from : Mapping → Limits → Result SpecError (List Volume)
  volumes_from end limits = ok []
  volumes_from (entry k v m) limits =
      let rest = volumes_from m limits in
      do
        name ← ok_or (as_str k) name_not_text
        guard (valid_volume_name name) (bad_name name)
        def ← def_of name v
        if is_external def then rest else (do
          x ← x_pve_of name (get (codes "x-pve") def)
          volume ← volume_of name x limits
          vs ← rest
          ok (volume ∷ vs))

  abbrev volumes_of : Option Value → Limits → Result SpecError (List Volume)
  volumes_of none limits = ok []
  volumes_of (some vols) limits =
      if is_null vols
      then ok []
      else ok_or (as_mapping vols) volumes_not_map >>= λ m. volumes_from m limits

  unfoldable pub volumes : Value → Limits → Result SpecError (List Volume)
  volumes spec limits = volumes_of (get (codes "volumes") spec) limits
