-- ===== src/Spec/Render/Bound.antt =====
-- The volumes of the document that `render` of src/spec.rs makes.
use pve_compose.Base.{
  ◌≡◌, ◌≢◌, text_dec, refl, sym, ap, ◌∙◌, Option, some, List, [], ◌∷◌, ◌++◌, Text, codes,
  text_eq_ne, text_eq_refl, is_text, All, Bool-cases, inl, inr,
}
use pve_compose.Spec.Yaml.{
  Value, null, bool, number, string, sequence, mapping, tagged, Mapping, end, entry, is_key,
  get_entry, insert_entry, get, as_mapping, untag,
}
use pve_compose.Spec.Volumes.{Volume, dir}
use pve_compose.Spec.Render.{
  Vars, vars_map, walk_mapping, without_name, at_volumes, as_key, define_in, define_volumes,
  definition, render,
}
use pve_compose.Spec.Render.Kept.{key_lem, get_entry-walk_mapping, get_entry-without_name}

insert_entry_here : (k : Text) (x : Value) (m : Mapping) → get_entry k (insert_entry k x m) ≡ some x
unfolding get_entry insert_entry
insert_entry_here k x end = rw (text_eq_refl k) refl
insert_entry_here k x (entry j w m) = elim (Bool-cases (is_key k j)) [
  | inl here ↦ rw here (rw here refl)
  | inr later ↦ rw later (rw later (insert_entry_here k x m))
]

insert_entry_other :
    (k j : Text) (x : Value) (m : Mapping)
    → j ≢ k
    → get_entry k (insert_entry j x m) ≡ get_entry k m
unfolding get_entry insert_entry
insert_entry_other k j x end ne = rw (text_eq_ne j k ne) refl
insert_entry_other k j x (entry i w m) ne = elim (Bool-cases (is_key j i)) [
  | inl here ↦ rw (key_lem j i here) (rw (text_eq_refl j, text_eq_ne j k ne) refl)
  | inr later ↦ rw later (elim (Bool-cases (is_key k i)) [
    | inl found ↦ rw found refl
    | inr on ↦ rw on (insert_entry_other k j x m ne)
  ])
]

-- No two volumes have one name, as the keys of a map.
abbrev pub HasDistinctNames : List Volume → Type 0
HasDistinctNames [] = Unit
HasDistinctNames (v ∷ vs) = All (λ w. w.name ≢ v.name) vs × HasDistinctNames vs

abbrev pub HasText : Text → Text → Mapping → Type 0
HasText k s m = get_entry k m ≡ some (string s)

-- What compose takes for a bind of a directory of the guest: a volume of the local driver, whose
-- options are a mount of type none, the option bind and the directory as the device.
abbrev pub IsBindOf : (directory : Text) → Mapping → Type 0
IsBindOf directory m =
    HasText (codes "driver") (codes "local") m
    × (opts : Mapping) × (get_entry (codes "driver_opts") m ≡ some (mapping opts))
    × HasText (codes "type") (codes "none") opts
    × HasText (codes "o") (codes "bind") opts
    × HasText (codes "device") directory opts

-- Each volume is defined as a bind of the directory with its name below `/opt/stack/volumes/`.
abbrev pub AreBound : List Volume → Mapping → Type 0
AreBound vs m =
    All
      (λ v.
        (d : Mapping) × (get_entry v.name m ≡ some (mapping d))
        × IsBindOf (codes "/opt/stack/volumes/" ++ v.name) d)
      vs

definition-IsBindOf :
    (v : Volume) (old : Option Value)
    → (d : Mapping) × (definition v old ≡ mapping d)
      × IsBindOf (codes "/opt/stack/volumes/" ++ v.name) d
unfolding definition get_entry dir text_dec
definition-IsBindOf v old = (_, refl, (refl, _, refl, refl, refl, refl))

define_volumes_other :
    (k : Text) (vs : List Volume) (m : Mapping)
    → All (λ w. w.name ≢ k) vs
    → get_entry k (define_volumes vs m) ≡ get_entry k m
unfolding define_volumes
define_volumes_other k [] m h = refl
define_volumes_other k (v ∷ vs) m (ne, h) =
    define_volumes_other k vs (insert_entry v.name (definition v (get_entry v.name m)) m) h
    ∙ insert_entry_other k v.name (definition v (get_entry v.name m)) m ne

define_volumes-AreBound :
    (vs : List Volume) (m : Mapping) → HasDistinctNames vs → AreBound vs (define_volumes vs m)
unfolding define_volumes
define_volumes-AreBound [] m h = tt
define_volumes-AreBound (v ∷ vs) m (others, h) =
    let x = definition v (get_entry v.name m) in
    let (d, defined, bound) = definition-IsBindOf v (get_entry v.name m) in
    (
      (
        d,
        define_volumes_other v.name vs (insert_entry v.name x m) others
            ∙ (insert_entry_here v.name x m ∙ ap (λ y. some y) defined),
        bound,
      ),
      define_volumes-AreBound vs (insert_entry v.name x m) h,
    )

as_key_key : (j : Value) (k : Text) → is_text (as_key j) k ≡ is_key k j
as_key_key (string s) k = refl
as_key_key null k = refl
as_key_key (bool b) k = refl
as_key_key (number n) k = refl
as_key_key (sequence i) k = refl
as_key_key (mapping m) k = refl
as_key_key (tagged t v) k = refl

get_entry_volumes :
    (vs : List Volume) (w : Value) (m : Mapping)
    → get_entry (codes "volumes") m ≡ some w
    → get_entry (codes "volumes") (at_volumes vs m) ≡ some (define_in vs w)
unfolding get_entry at_volumes
get_entry_volumes vs w end h = absurd (cc h)
get_entry_volumes vs w (entry j x m) h = elim (Bool-cases (is_key (codes "volumes") j)) [
  | inl here ↦
      rw (as_key_key j (codes "volumes"), here)
        (rw here (ap (λ y. some (define_in vs y)) (same_value x w (rw here at h))))
  | inr later ↦
      rw (as_key_key j (codes "volumes"), later)
        (rw later (get_entry_volumes vs w m (rw later at h)))
]
  where
    same_value : (x w : Value) → Path (Option Value) (some x) (some w) → x ≡ w
    same_value x w e = cc e

name_volumes : codes "name" ≢ codes "volumes"
name_volumes e = cc e

-- In the rendered document of a map with a map of volumes, managed volumes of distinct names are
-- each defined as a bind of the directory with their name below `/opt/stack/volumes/`.
pub render-AreBound :
    (top volumes : Mapping) (vs : List Volume) (vars : Vars)
    → get_entry (codes "volumes") top ≡ some (mapping volumes)
    → HasDistinctNames vs
    → (m : Mapping) × (get (codes "volumes") (render (mapping top) vs vars) ≡ some (mapping m))
      × AreBound vs m
unfolding render get as_mapping untag get_entry define_in
render-AreBound top volumes vs vars h distinct =
    let walked = walk_mapping (vars_map vars) volumes in
    (
      define_volumes vs walked,
      get_entry_volumes vs (mapping walked)
          (entry (string (codes "name")) (string vars.project)
            (without_name (walk_mapping (vars_map vars) top)))
          (rw (text_eq_ne (codes "name") (codes "volumes") name_volumes) (
            get_entry-without_name (codes "volumes") (mapping walked)
              (walk_mapping (vars_map vars) top) (λ e. name_volumes (sym e))
              (get_entry-walk_mapping (vars_map vars) (codes "volumes") (mapping volumes) top h))),
      define_volumes-AreBound vs walked distinct,
    )
