-- ===== src/Spec/Volumes/Names.antt =====
-- Which volumes src/spec.rs manages, and the directories that they get inside the guest.
use mathlib.Core.List.{cons-ne-nil}
use pve_compose.Base.{
  ◌≡◌, sym, ◌∙◌, ap, ap₂, Option, none, some, List, [], ◌∷◌, ◌++◌, map, Text, codes, if◌then◌else◌,
  Bool-cases, inl, inr, Result, ok, ◌>>=◌, >>=-eq-ok, guard, ok_or, ok-injective,
}
use pve_compose.Base.Cuts.{split_single}
use pve_compose.Config.{Limits}
use pve_compose.Layout.{volumes_dir}
use pve_compose.Spec.Yaml.{Value, null, mapping, Mapping, end, entry, as_str, get}
use pve_compose.Spec.Bounds.{SpecError, slash, valid_volume_name, name_not_text, bad_name}
use pve_compose.Spec.Bounds.Paths.{segments}
use pve_compose.Spec.Bounds.Inside.{segments_below}
use pve_compose.Spec.Volumes.{
  Volume, XPve, volume_of, check_owner, kind_of, def_of, dir, is_external, x_pve_of, volumes_from,
}
use pve_compose.Spec.Volumes.Permitted.{IsPermitted}

abbrev text_of : Option Text → Text
text_of none = []
text_of (some s) = s

-- The keys of the entries that are not external, in their order.
pub managed_names : Mapping → List Text
managed_names end = []
managed_names (entry k v m) =
    let rest = managed_names m in if is_external v then rest else text_of (as_str k) ∷ rest

def_of-eq : (name : Text) (v def : Value) → def_of name v ≡ ok def → def ≡ v
unfolding def_of
def_of-eq name null def h = cc
def_of-eq name (mapping m) def h = cc
def_of-eq name _ def h = cc

volume_of-name :
    (name : Text) (x : Option XPve) (limits : Limits) (v : Volume)
    → volume_of name x limits ≡ ok v
    → v.name ≡ name
unfolding volume_of
volume_of-name name none limits v h = ap (λ (w : Volume). w.name) (sym (ok-injective h))
volume_of-name name (some x) limits v h =
    let (_, _, more) = >>=-eq-ok (check_owner name x.owner) _ h in
    let (k, _, last) = >>=-eq-ok (kind_of name x.path x.storage x.size _ limits) _ more in
    ap (λ (w : Volume). w.name) (sym (ok-injective last))

-- The directory of a permitted volume is an entry of the volumes directory.
pub segments-dir :
    (limits : Limits) (v : Volume)
    → IsPermitted limits v
    → segments (dir v) ≡ segments volumes_dir ++ v.name ∷ []
unfolding dir
segments-dir limits v p =
    segments_below (codes "opt/stack/volumes") v.name (cons-ne-nil _ _)
    ∙ ap (λ t. segments volumes_dir ++ t) (split_single slash v.name p.segment.1)

text_of-key :
    (k : Value) (name : Text) → ok_or (as_str k) name_not_text ≡ ok name → text_of (as_str k) ≡ name
text_of-key k name h = text_of-ok_or (as_str k) h
  where
    text_of-ok_or : (o : Option Text) → ok_or o name_not_text ≡ ok name → text_of o ≡ name
    text_of-ok_or none e = cc e
    text_of-ok_or (some s) e = ok-injective e

module _ (from_value : Value → Option XPve) (limits : Limits) where
  abbrev names : List Volume → List Text
  names = map (λ v. v.name)

  managed-names :
      (name : Text) (def : Value) (rest : Result SpecError (List Volume)) (vs : List Volume)
      (others : List Text)
      → ((ws : List Volume) → rest ≡ ok ws → names ws ≡ others)
      → (x_pve_of from_value name (get (codes "x-pve") def) >>= λ x.
          volume_of name x limits >>= λ volume. rest >>= λ ws. ok (volume ∷ ws))
        ≡ ok vs
      → names vs ≡ name ∷ others
  managed-names name def rest vs others ih h =
      let (x, _, h₁) = >>=-eq-ok (x_pve_of from_value name (get (codes "x-pve") def)) _ h in
      let (volume, made, h₂) = >>=-eq-ok (volume_of name x limits) _ h₁ in
      let (ws, same, last) = >>=-eq-ok rest _ h₂ in
      ap names (sym (ok-injective last))
      ∙ ap₂ ◌∷◌ (volume_of-name name x limits volume made) (ih ws same)

  -- The volumes that a map of volumes yields carry, in order, the names of its entries that are
  -- not external.
  pub volumes_from-names :
      (m : Mapping) (vs : List Volume)
      → volumes_from from_value m limits ≡ ok vs
      → map (λ v. v.name) vs ≡ managed_names m
  unfolding volumes_from managed_names
  volumes_from-names end vs h = ap names (sym (ok-injective h))
  volumes_from-names (entry k v m) vs h =
      let (name, key, h₁) = >>=-eq-ok (ok_or (as_str k) name_not_text) _ h in
      let (_, _, h₂) = >>=-eq-ok (guard (valid_volume_name name) (bad_name name)) _ h₁ in
      let (def, e, h₃) = >>=-eq-ok (def_of name v) _ h₂ in
      let same : is_external def ≡ is_external v = ap is_external (def_of-eq name v def e) in
      elim (Bool-cases (is_external v)) [
        | inl external ↦ rw external (volumes_from-names m vs (rw (same ∙ external) at h₃))
        | inr managed ↦
            rw (managed, text_of-key k name key)
              (managed-names name def (volumes_from from_value m limits) vs (managed_names m)
                (volumes_from-names m) (rw (same ∙ managed) at h₃))
      ]
