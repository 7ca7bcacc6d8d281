-- ===== src/Spec/Bounds.antt =====
-- src/spec.rs: what a document may ask the node for, checked as text.
pub mod Paths
pub mod Inside
pub mod Accepted
pub mod Tests
use pve_compose.Base.{
  ℕ, ◌+◌, ◌-◌, ◌*◌, ◌^◌, Bool, true, false, not, ◌&&◌, ◌||◌, Option, none, some, List, [], ◌∷◌,
  ◌++◌, Text, codes, text_eq, is_empty, all, any, starts_with, strip_prefix, split, split_once,
  is_ascii_digit, is_ascii_alphanumeric, ltb, ◌==◌, if◌then◌else◌, Result, ok, err, ◌>>=◌, ◌>>◌,
  guard, map_err,
}
use pve_compose.Size.{Size, gib}
use pve_compose.Config.{Limits}

-- One constructor for each `bail!`, with what its message names.
pub data SpecError : Type 0 where
  not_absolute : (path : Text) → SpecError
  empty_segment : (path : Text) → SpecError
  dot_segment : (path seg : Text) → SpecError
  binds_refused : (name : Text) → SpecError
  not_under : (name path : Text) → SpecError
  storage_refused : (name storage : Text) → SpecError
  storage_not_listed : (name storage : Text) → SpecError
  above_max : (name : Text) (size : Size) → SpecError
  bad_owner : (owner : Text) → SpecError
  volumes_not_map : SpecError
  name_not_text : SpecError
  bad_name : (name : Text) → SpecError
  not_map : (name : Text) → SpecError
  bad_x_pve : (name : Text) → SpecError
  backup_of_bind : (name : Text) → SpecError
  path_exclusive : (name : Text) → SpecError
  storage_needs_size : (name : Text) → SpecError
  in_path : (name : Text) → SpecError → SpecError
  in_bind_roots : SpecError → SpecError
  in_owner : (name : Text) → SpecError → SpecError

abbrev pub Checked : Type 0
Checked = Result SpecError (Unit {0})

abbrev pub slash : ℕ
slash = b'/'

-- The loop over `rest.split('/')`.
check_segments : Text → List Text → Checked
check_segments path [] = ok tt
check_segments path (seg ∷ segs) =
    if is_empty seg
    then err (empty_segment path)
    else if text_eq seg (codes ".") || text_eq seg (codes "..")
    then err (dot_segment path seg)
    else check_segments path segs

unfoldable pub check_clean_absolute : Text → Checked
unfolding check_segments strip_prefix split
check_clean_absolute path = elim (strip_prefix path (codes "/")) [
  | none ↦ err (not_absolute path)
  | some rest ↦ if is_empty rest then ok tt else check_segments path (split slash rest)
]

unfoldable pub under : Text → Text → Bool
unfolding strip_prefix
under root path =
    let prefix = if text_eq root (codes "/") then codes "/" else root ++ codes "/" in
    text_eq path root || starts_with path prefix

-- The loop over `limits.bind_roots`.
unfoldable pub check_roots : Text → Text → List Text → Checked
check_roots name path [] = err (not_under name path)
check_roots name path (root ∷ roots) = do
  map_err in_bind_roots (check_clean_absolute root)
  if under root path then ok tt else check_roots name path roots

unfoldable pub check_bind_path : Text → Text → Limits → Checked
unfolding check_roots
check_bind_path name path limits = do
  map_err (in_path name) (check_clean_absolute path)
  if is_empty limits.bind_roots
      then err (binds_refused name)
      else check_roots name path limits.bind_roots

unfoldable pub check_storage : Text → Text → Limits → Checked
check_storage name storage limits =
    if any (λ s. text_eq s storage) limits.storages
    then ok tt
    else if is_empty limits.storages
    then err (storage_refused name storage)
    else err (storage_not_listed name storage)

-- `a.saturating_mul(b)` on `u64`
abbrev pub saturating_mul : ℕ → ℕ → ℕ
saturating_mul a b = if ltb (a * b) (2 ^ 64) then a * b else 2 ^ 64 - 1

unfoldable pub check_size : Text → Size → Limits → Checked
check_size name size limits =
    if ltb (saturating_mul limits.max_disk_gib gib) size.bytes
    then err (above_max name size)
    else ok tt

abbrev pub is_name_char : ℕ → Bool
is_name_char c = is_ascii_alphanumeric c || c == b'_' || c == b'-' || c == b'.'

unfoldable pub valid_volume_name : Text → Bool
unfolding strip_prefix
valid_volume_name name =
    not (is_empty name) && all is_name_char name && not (starts_with name (codes "."))

-- `owner.split_once(':').unwrap_or((owner, owner))`
abbrev uid_gid : Text → Option (Text × Text) → Text × Text
uid_gid owner none = (owner, owner)
uid_gid owner (some p) = p

unfoldable pub split_owner : Text → Result SpecError (Text × Text)
unfolding split_once
split_owner owner =
    let (u, g) = uid_gid owner (split_once b':' owner) in
    if is_empty u || is_empty g || not (all is_ascii_digit u) || not (all is_ascii_digit g)
    then err (bad_owner owner)
    else ok (u, g)
