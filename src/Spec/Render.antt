-- ===== src/Spec/Render.antt =====
-- src/spec.rs: `render`, up to the printing of the YAML, which is serde's.
pub mod Kept
pub mod Bound
pub mod Pieces
pub mod Tests
use pve_compose.Base.{
  ℕ, zero, suc, Bool, true, false, ◌||◌, not, Option, none, some, List, [], ◌∷◌, ◌++◌, Text, codes,
  is_text, starts_with, contains, length, if◌then◌else◌,
}
use pve_compose.Base.Decimal.{show}
use pve_compose.Layout.{stack_dir}
use pve_compose.Spec.Yaml.{
  Value, null, bool, number, string, sequence, mapping, tagged, Items, nil, cons, Mapping, end,
  entry, as_str, get_entry, insert_entry,
}
use pve_compose.Spec.Volumes.{Volume, dir}

pub record Vars : Type 0 where
  pub vmid : ℕ
  pub uid : Text
  pub gid : Text
  pub name : Text
  pub project : Text

-- `Vars::map`, in the order of the keys.
abbrev pub vars_map : Vars → List (Text × Text)
vars_map vars =
    (codes "PVE_GID", vars.gid)
    ∷ (codes "PVE_NAME", vars.name)
    ∷ (codes "PVE_STACK", stack_dir)
    ∷ (codes "PVE_UID", vars.uid)
    ∷ (codes "PVE_VMID", show vars.vmid)
    ∷ []

-- `s.replace(from, to)`, with the characters of a match that are still to be left out.
pub replace_at : (from to : Text) → ℕ → Text → Text
replace_at from to left [] = []
replace_at from to (suc left) (c ∷ s) = replace_at from to left s
replace_at [] to zero (c ∷ s) = c ∷ replace_at [] to zero s
replace_at (d ∷ from) to zero (c ∷ s) =
    let inside = to ++ replace_at (d ∷ from) to (length from) s in
    let on = c ∷ replace_at (d ∷ from) to zero s in
    if starts_with (c ∷ s) (d ∷ from) then inside else on

abbrev pub replace : (from to : Text) → Text → Text
replace from to = replace_at from to zero

replace_vars : List (Text × Text) → Text → Text
replace_vars [] out = out
replace_vars ((k, v) ∷ vars) out =
    replace_vars vars (replace (codes "$" ++ k) v (replace (codes "${" ++ k ++ codes "}") v out))

pub substitute : List (Text × Text) → Text → Text
substitute vars s =
    if not (contains s (codes "${PVE_") || contains s (codes "$PVE_"))
    then s
    else replace_vars vars s

mutual
  pub walk : List (Text × Text) → Value → Value
  walk vars (string s) = string (substitute vars s)
  walk vars (sequence items) = sequence (walk_items vars items)
  walk vars (mapping m) = mapping (walk_mapping vars m)
  walk vars (tagged t v) = tagged t (walk vars v)
  walk vars null = null
  walk vars (bool b) = bool b
  walk vars (number n) = number n

  pub walk_items : List (Text × Text) → Items → Items
  walk_items vars nil = nil
  walk_items vars (cons v items) = cons (walk vars v) (walk_items vars items)

  pub walk_mapping : List (Text × Text) → Mapping → Mapping
  walk_mapping vars end = end
  walk_mapping vars (entry k v m) = entry k (walk vars v) (walk_mapping vars m)

-- The entries but `name`.
pub without_name : Mapping → Mapping
without_name end = end
without_name (entry k v m) =
    let rest = without_name m in if is_text (as_str k) (codes "name") then rest else entry k v rest

pub with_name : Text → Value → Value
with_name project (mapping top) =
    mapping (entry (string (codes "name")) (string project) (without_name top))
with_name project v = v

-- The `name:` that the author gave a volume.
old_name : Option Value → Option Value
old_name (some (mapping old)) = get_entry (codes "name") old
old_name _ = none

named : Option Value → Mapping
named none = end
named (some n) = entry (string (codes "name")) n end

pub definition : Volume → Option Value → Value
definition v old = mapping (
    entry (string (codes "driver")) (string (codes "local")) (
      entry (string (codes "driver_opts"))
        (mapping (
          entry (string (codes "type")) (string (codes "none")) (
            entry (string (codes "o")) (string (codes "bind"))
              (entry (string (codes "device")) (string (dir v)) end))))
        (named (old_name old))))

pub define_volumes : List Volume → Mapping → Mapping
define_volumes [] m = m
define_volumes (v ∷ vs) m =
    define_volumes vs (insert_entry v.name (definition v (get_entry v.name m)) m)

define_in : List Volume → Value → Value
define_in vs (mapping m) = mapping (define_volumes vs m)
define_in vs v = v

abbrev pub as_key : Value → Option Text
as_key (string s) = some s
as_key _ = none

-- `doc.get_mut("volumes")`
pub at_volumes : List Volume → Mapping → Mapping
at_volumes vs end = end
at_volumes vs (entry k v m) =
    let rest = at_volumes vs m in
    if is_text (as_key k) (codes "volumes") then entry k (define_in vs v) m else entry k v rest

pub at_volumes_of : List Volume → Value → Value
at_volumes_of vs (mapping top) = mapping (at_volumes vs top)
at_volumes_of vs (tagged t v) = tagged t (at_volumes_of vs v)
at_volumes_of vs v = v

unfoldable pub render : Value → List Volume → Vars → Value
unfolding walk with_name at_volumes_of
render spec vs vars = at_volumes_of vs (with_name vars.project (walk (vars_map vars) spec))
