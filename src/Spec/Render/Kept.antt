-- ===== src/Spec/Render/Kept.antt =====
-- What `render` of src/spec.rs leaves of the document.
use pve_compose.Base.{
  ◌≡◌, ◌≢◌, sym, ap, true, Option, some, List, Text, codes, text_eq_sound, text_eq_ne, text_eq_refl,
  Bool-cases, inl, inr, is_text,
}
use pve_compose.Spec.Yaml.{
  Value, null, bool, number, string, sequence, mapping, tagged, Mapping, end, entry, as_str, untag,
  is_key, get_entry, get, as_mapping,
}
use pve_compose.Spec.Volumes.{Volume}
use pve_compose.Spec.Render.{
  Vars, vars_map, walk, walk_mapping, without_name, at_volumes, as_key, render,
}

pub key_lem : (k : Text) (j : Value) → is_key k j ≡ true → j ≡ string k
key_lem k (string s) h = ap (λ t. string t) (text_eq_sound s k h)
key_lem k null h = absurd (cc h)
key_lem k (bool b) h = absurd (cc h)
key_lem k (number n) h = absurd (cc h)
key_lem k (sequence i) h = absurd (cc h)
key_lem k (mapping m) h = absurd (cc h)
key_lem k (tagged t v) h = absurd (cc h)

same : (w v : Value) → Path (Option Value) (some w) (some v) → w ≡ v
same w v h = cc

pub get_entry-walk_mapping :
    (vars : List (Text × Text)) (k : Text) (v : Value) (m : Mapping)
    → get_entry k m ≡ some v
    → get_entry k (walk_mapping vars m) ≡ some (walk vars v)
unfolding get_entry walk
get_entry-walk_mapping vars k v end h = absurd (cc h)
get_entry-walk_mapping vars k v (entry j w m) h = elim (Bool-cases (is_key k j)) [
  | inl here ↦ rw here (ap (λ t. some (walk vars t)) (same w v (rw here at h)))
  | inr later ↦ rw later (get_entry-walk_mapping vars k v m (rw later at h))
]

pub get_entry-without_name :
    (k : Text) (v : Value) (m : Mapping)
    → k ≢ codes "name"
    → get_entry k m ≡ some v
    → get_entry k (without_name m) ≡ some v
unfolding get_entry without_name as_str
get_entry-without_name k v end ne h = absurd (cc h)
get_entry-without_name k v (entry j w m) ne h = elim (Bool-cases (is_key k j)) [
  | inl here ↦ rw (key_lem k j here, text_eq_ne k (codes "name") ne, text_eq_refl k) (rw here at h)
  | inr later ↦ elim (Bool-cases (is_text (as_str j) (codes "name"))) [
    | inl name ↦ rw name (get_entry-without_name k v m ne (rw later at h))
    | inr other ↦ rw (other, later) (get_entry-without_name k v m ne (rw later at h))
  ]
]

get_entry-at_volumes :
    (vs : List Volume) (k : Text) (v : Value) (m : Mapping)
    → k ≢ codes "volumes"
    → get_entry k m ≡ some v
    → get_entry k (at_volumes vs m) ≡ some v
unfolding get_entry at_volumes
get_entry-at_volumes vs k v end ne h = absurd (cc h)
get_entry-at_volumes vs k v (entry j w m) ne h = elim (Bool-cases (is_key k j)) [
  | inl here ↦
      rw (key_lem k j here, text_eq_ne k (codes "volumes") ne, text_eq_refl k) (rw here at h)
  | inr later ↦ elim (Bool-cases (is_text (as_key j) (codes "volumes"))) [
    | inl volumes ↦ rw (volumes, later) (rw later at h)
    | inr other ↦ rw (other, later) (get_entry-at_volumes vs k v m ne (rw later at h))
  ]
]

-- The entries but `name` and `volumes` are walked over and kept.
pub get_entry-render-walk :
    (top : Mapping) (vs : List Volume) (vars : Vars) (k : Text) (v : Value)
    → k ≢ codes "name"
    → k ≢ codes "volumes"
    → get_entry k top ≡ some v
    → get k (render (mapping top) vs vars) ≡ some (walk (vars_map vars) v)
unfolding render get as_mapping untag get_entry
get_entry-render-walk top vs vars k v not_name not_volumes h =
    get_entry-at_volumes vs k (walk (vars_map vars) v)
      (entry (string (codes "name")) (string vars.project)
        (without_name (walk_mapping (vars_map vars) top)))
      not_volumes
      (rw (text_eq_ne (codes "name") k (λ e. not_name (sym e))) (
        get_entry-without_name k (walk (vars_map vars) v) (walk_mapping (vars_map vars) top)
          not_name (get_entry-walk_mapping (vars_map vars) k v top h)))
