-- ===== src/Spec/Render/Tests.antt =====
-- A document rendered, and the theorem there.
use pve_compose.Base.{
  ◌≡◌, false, none, ◌∷◌, refl, some, [], codes, text_dec, strip_prefix, contains,
}
use pve_compose.Spec.Yaml.{Value, string, mapping, Mapping, end, entry, get_entry, get}
use pve_compose.Spec.Render.{Vars, vars_map, substitute, replace_at, replace_vars, render}
use pve_compose.Spec.Volumes.{Volume, bind}
use pve_compose.Spec.Render.Bound.{AreBound, render-AreBound}
use pve_compose.Base.{List, true}
use pve_compose.Spec.Render.Pieces.{Piece, literal, variable, uid, gid, spell, meaning}

abbrev vars : Vars
vars = record {
  vmid = 101;
  uid = codes "1000";
  gid = codes "100";
  name = codes "web";
  project = codes "web";
}

abbrev top : Mapping
top =
    entry (string (codes "x-run"))
      (mapping (
        entry (string (codes "user")) (string (codes "${PVE_UID}:$PVE_GID"))
          (entry (string (codes "home")) (string (codes "$HOME")) end)))
      end

substituted : substitute (vars_map vars) (codes "${PVE_UID}:$PVE_GID") ≡ codes "1000:100"
unfolding substitute replace_at contains strip_prefix replace_vars
substituted = refl

-- The user and the groups of `x-run`, the first in pieces.
abbrev user : List Piece
user = variable uid true ∷ literal (codes ":") ∷ variable gid false ∷ []

abbrev run_before : Value
run_before = mapping (
    entry (string (codes "user")) (string (spell user))
      (entry (string (codes "home")) (string (codes "$HOME")) end))

abbrev run_after : Value
run_after = mapping (
    entry (string (codes "user")) (string (meaning vars user))
      (entry (string (codes "home")) (string (codes "$HOME")) end))

-- A document with a managed volume and one that is not.
abbrev with_volumes : Mapping
with_volumes =
    entry (string (codes "volumes"))
      (mapping (
        entry (string (codes "db")) (string (codes "x"))
          (entry (string (codes "cache")) (mapping end) end)))
      end

abbrev db : Volume
db = record { name = codes "db"; kind = bind (codes "/srv/db"); owner = none; backup = false }

render-AreBound_example :
    (m : Mapping) × (get (codes "volumes") (render (mapping with_volumes) (db ∷ []) vars)
      ≡ some (mapping m))
    × AreBound (db ∷ []) m
unfolding get_entry text_dec
render-AreBound_example =
    render-AreBound with_volumes
      (entry (string (codes "db")) (string (codes "x"))
        (entry (string (codes "cache")) (mapping end) end))
      (db ∷ []) vars refl (tt, tt)
