-- ===== src/Plan/Build/Printed.antt =====
-- src/plan.rs: an operation as it is printed.
use pve_compose.Base.{
  ◌*◌, ◌≡◌, refl, Bool, true, false, Option, none, some, [], ◌++◌, Text, codes, if◌then◌else◌,
}
use pve_compose.Size.{gib, display}
use pve_compose.Plan.Build.{Op, set_features, add_tag, create_disk, create_bind, resize, set_backup}

-- `mount.mp.as_deref().unwrap_or("?")`
abbrev path_or : Option Text → Text
path_or none = codes "?"
path_or (some mp) = mp

-- `Display`
unfoldable pub op_text : Op → Text
op_text (set_features s) = codes "features: " ++ s ++ codes " (takes effect on restart)"
op_text (add_tag t) = codes "tag: add '" ++ t ++ codes "'"
op_text (create_disk mp storage size backup) =
    codes "disk: create "
    ++ display size
    ++ codes " on "
    ++ storage
    ++ codes " at "
    ++ mp
    ++ (if backup then [] else codes " (backup=0)")
op_text (create_bind mp path) = codes "bind: " ++ path ++ codes " at " ++ mp
op_text (resize key mp from to) =
    codes "disk: grow "
    ++ key
    ++ codes " ("
    ++ mp
    ++ codes ") "
    ++ display from
    ++ codes " -> "
    ++ display to
op_text (set_backup m backup) =
    codes "disk: "
    ++ m.key
    ++ codes " ("
    ++ path_or m.mp
    ++ codes ") backup="
    ++ (if backup then codes "1" else codes "0")

-- Lines of the source's own tests.
source_lines :
    (op_text (
        create_disk
          (codes "/opt/stack/volumes/db")
          (codes "NetApp")
          (record { bytes = 2 * gib })
          true)
      ≡ codes "disk: create 2G on NetApp at /opt/stack/volumes/db")
    × (op_text (
          resize
            (codes "mp1")
            (codes "/opt/stack/volumes/db")
            (record { bytes = 10 * gib })
            (record { bytes = 20 * gib }))
        ≡ codes "disk: grow mp1 (/opt/stack/volumes/db) 10G -> 20G")
unfolding op_text display pve_compose.Base.Decimal.show
source_lines = (refl, refl)
