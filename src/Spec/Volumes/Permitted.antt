-- ===== src/Spec/Volumes/Permitted.antt =====
-- Every volume that src/spec.rs lets through is within the node's limits.
use Prim.Native.Nat.{min}
use pve_compose.Base.{
  ◌-◌, ◌*◌, ◌^◌, ◌≤◌, ◌≡◌, Bool, true, false, Option, none, some, List, [], ◌∷◌, Text, codes, Lacks,
  split, All, Any, Bool-cases, inl, inr, Result, ok, ◌>>=◌, >>=-eq-ok, guard, ok_or, map_err,
  map_err-eq-ok, ok-injective, guard-eq-ok, subst,
}
use pve_compose.Size.{Size, gib}
use pve_compose.Config.{Limits}
use pve_compose.Spec.Yaml.{Value, Mapping, end, entry, as_str, as_mapping, is_null, get}
use pve_compose.Spec.Bounds.{
  SpecError, slash, in_owner, name_not_text, volumes_not_map, bad_name, valid_volume_name,
  check_bind_path, check_storage, check_size, split_owner,
}
use pve_compose.Spec.Bounds.Paths.{IsPlain, IsClean}
use pve_compose.Spec.Bounds.Inside.{IsInside}
use pve_compose.Spec.Bounds.Accepted.{
  IsNumeral, check_bind_path_sound, check_storage_iff, check_size_iff, valid_volume_name_sound,
  split_owner_sound,
}
use pve_compose.Spec.Volumes.{
  Kind, disk, bind, plain, Volume, XPve, check_owner, check_named_storage, kind_of, volume_of,
  def_of, is_external, x_pve_of, volumes_from, volumes_of, volumes,
}

-- What the limits allow a volume's backing to be.
abbrev pub WithinLimits : Limits → Kind → Type 0
WithinLimits limits plain = Unit
WithinLimits limits (bind path) =
    IsClean path × Any (λ root. IsClean root × IsInside root path) limits.bind_roots
WithinLimits limits (disk none size) = size.bytes ≤ min (limits.max_disk_gib * gib) (2 ^ 64 - 1)
WithinLimits limits (disk (some s) size) =
    (size.bytes ≤ min (limits.max_disk_gib * gib) (2 ^ 64 - 1))
    × Any (λ listed. listed ≡ s) limits.storages

-- Numbers, which cannot be read as anything else in a shell line.
abbrev pub IsOwner : Option Text → Type 0
IsOwner none = Unit
IsOwner (some o) = (u : Text) × (g : Text) × IsNumeral u × IsNumeral g × (split_owner o ≡ ok (u, g))

pub record IsPermitted (limits : Limits) (v : Volume) : Type 0 where
  -- The name is one path segment of letters, digits, `_`, `-` and `.` that names an entry.
  pub named : valid_volume_name v.name ≡ true
  pub segment : IsPlain v.name × Lacks slash v.name
  pub owned : IsOwner v.owner
  pub backed : WithinLimits limits v.kind

module _ (name : Text) (limits : Limits) where
  kind_of-WithinLimits :
      (path storage : Option Text) (size : Option Size) (has_backup : Bool) (k : Kind)
      → kind_of name path storage size has_backup limits ≡ ok k
      → WithinLimits limits k
  unfolding kind_of check_named_storage
  kind_of-WithinLimits (some p) none none true k h = cc h
  kind_of-WithinLimits (some p) none none false k h =
      let (_, checked, last) = >>=-eq-ok (check_bind_path name p limits) _ h in
      subst (WithinLimits limits) (ok-injective last) (check_bind_path_sound name p limits checked)
  kind_of-WithinLimits (some p) (some s) size b k h = cc h
  kind_of-WithinLimits (some p) none (some z) b k h = cc h
  kind_of-WithinLimits none none (some z) b k h =
      let (_, fits, last) = >>=-eq-ok (check_size name z limits) _ h in
      subst (WithinLimits limits) (ok-injective last) ((check_size_iff name name limits z).0 fits)
  kind_of-WithinLimits none (some s) (some z) b k h =
      let (_, fits, more) = >>=-eq-ok (check_size name z limits) _ h in
      let (_, listed, last) = >>=-eq-ok (check_storage name s limits) _ more in
      subst (WithinLimits limits) (ok-injective last) (
        (check_size_iff name name limits z).0 fits,
        (check_storage_iff name name limits s).0 listed,
      )
  kind_of-WithinLimits none (some s) none b k h = cc h
  kind_of-WithinLimits none none none b k h = subst (WithinLimits limits) (ok-injective h) tt

  check_owner-IsOwner : (o : Option Text) → check_owner name o ≡ ok tt → IsOwner o
  unfolding check_owner
  check_owner-IsOwner none h = tt
  check_owner-IsOwner (some o) h =
      let ((u, g), split, _) = >>=-eq-ok (map_err (in_owner name) (split_owner o)) _ h in
      let accepted = map_err-eq-ok (in_owner name) (split_owner o) split in
      let (nu, ng, _) = split_owner_sound o u g accepted in (u, g, nu, ng, accepted)

  volume_of-IsPermitted :
      (x : Option XPve) (v : Volume)
      → valid_volume_name name ≡ true
      → volume_of name x limits ≡ ok v
      → IsPermitted limits v
  unfolding volume_of
  volume_of-IsPermitted none v valid h = subst (IsPermitted limits) (ok-injective h) (record {
    named = valid;
    segment = valid_volume_name_sound name valid;
    owned = tt;
    backed = tt;
  })
  volume_of-IsPermitted (some x) v valid h =
      let (_, owned, more) = >>=-eq-ok (check_owner name x.owner) _ h in
      let (k, settled, last) = >>=-eq-ok (kind_of name x.path x.storage x.size _ limits) _ more in
      subst (IsPermitted limits) (ok-injective last) (record {
        named = valid;
        segment = valid_volume_name_sound name valid;
        owned = check_owner-IsOwner x.owner owned;
        backed = kind_of-WithinLimits x.path x.storage x.size _ k settled;
      })

module _ (from_value : Value → Option XPve) (limits : Limits) where
  -- The steps behind the test for an external volume.
  managed-IsPermitted :
      (name : Text) (def : Value) (rest : Result SpecError (List Volume)) (vs : List Volume)
      → valid_volume_name name ≡ true
      → ((ws : List Volume) → rest ≡ ok ws → All (IsPermitted limits) ws)
      → (x_pve_of from_value name (get (codes "x-pve") def) >>= λ x.
          volume_of name x limits >>= λ volume. rest >>= λ ws. ok (volume ∷ ws))
        ≡ ok vs
      → All (IsPermitted limits) vs
  managed-IsPermitted name def rest vs valid ih h =
      let (x, _, h₁) = >>=-eq-ok (x_pve_of from_value name (get (codes "x-pve") def)) _ h in
      let (volume, made, h₂) = >>=-eq-ok (volume_of name x limits) _ h₁ in
      let (ws, others, last) = >>=-eq-ok rest _ h₂ in
      subst (All (IsPermitted limits)) (ok-injective last)
        (volume_of-IsPermitted name limits x volume valid made, ih ws others)

  volumes_from-IsPermitted :
      (m : Mapping) (vs : List Volume)
      → volumes_from from_value m limits ≡ ok vs
      → All (IsPermitted limits) vs
  unfolding volumes_from
  volumes_from-IsPermitted end vs h = subst (All (IsPermitted limits)) (ok-injective h) tt
  volumes_from-IsPermitted (entry k v m) vs h =
      let (name, _, h₁) = >>=-eq-ok (ok_or (as_str k) name_not_text) _ h in
      let (_, ok_name, h₂) = >>=-eq-ok (guard (valid_volume_name name) (bad_name name)) _ h₁ in
      let (def, _, h₃) = >>=-eq-ok (def_of name v) _ h₂ in
      let valid = guard-eq-ok (valid_volume_name name) (bad_name name) ok_name in
      elim (Bool-cases (is_external def)) [
        | inl external ↦ volumes_from-IsPermitted m vs (rw external at h₃)
        | inr managed ↦
            managed-IsPermitted name def (volumes_from from_value m limits) vs valid
              (volumes_from-IsPermitted m) (rw managed at h₃)
      ]

  -- Every volume that a document gets has a name that is one plain path segment of name characters, an owner in
  -- digits if it has one, and a backing within the limits: a bind only of a clean path inside a
  -- listed root, a named storage only if it is listed, and no disk above the ceiling.
  pub volumes-IsPermitted :
      (spec : Value) (vs : List Volume)
      → volumes from_value spec limits ≡ ok vs
      → All (IsPermitted limits) vs
  unfolding volumes
  volumes-IsPermitted spec vs = of_entry (get (codes "volumes") spec)
    where
      none_listed :
          Path (Result SpecError (List Volume)) (ok []) (ok vs) → All (IsPermitted limits) vs
      none_listed h = subst (All (IsPermitted limits)) (ok-injective h) tt

      of_entry :
          (o : Option Value) → volumes_of from_value o limits ≡ ok vs → All (IsPermitted limits) vs
      of_entry none h = none_listed h
      of_entry (some v) h = elim (Bool-cases (is_null v)) [
        | inl empty ↦ none_listed (rw empty at h)
        | inr there ↦
            let (m, _, last) = >>=-eq-ok (ok_or (as_mapping v) volumes_not_map) _ (rw there at h) in
            volumes_from-IsPermitted m vs last
      ]
