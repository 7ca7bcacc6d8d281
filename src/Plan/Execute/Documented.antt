-- ===== src/Plan/Execute/Documented.antt =====
-- What PVE documents of `pct set` and `pct resize`, for the calls of src/plan.rs: what src/pct.rs reads
-- of the wrapper's config behind a call that succeeded.
use pve_compose.Base.{
  ℕ, ◌+◌, ◌^◌, ◌<◌, ◌≤◌, ◌≡◌, Bool, Option, none, some, List, [], ◌∷◌, ◌++◌, Text, codes, split,
  Lacks, ok,
}
use pve_compose.Base.Decimal.{show}
use pve_compose.Base.Dict.{Dict}
use pve_compose.Size.{Size, Float, mib, to_pct_resize}
use pve_compose.Pct.Mount.{Mount, parse, print}
use pve_compose.Pct.Guest.{GuestConfig, tags_of, trimmed_parts, add_features}
use pve_compose.Pct.Guest.Keys.{IsKeyFree}
use pve_compose.Plan.Build.Converged.{IsEnough}
use pve_compose.Plan.Execute.{Call, set_options, resize_disk, mp_arg, disk_arg, bind_arg}

-- The features that are read of the text of the option.
abbrev pub features_of : Text → Dict Text
features_of s = add_features (trimmed_parts (split b',' s)) []

abbrev pub mp_key : ℕ → Text
mp_key i = codes "mp" ++ show i

-- The config has one mount more, somewhere in the order of the mounts.
abbrev pub Adds : GuestConfig → Mount → GuestConfig → Type 0
Adds g m g' =
    (before : List Mount) × (later : List Mount) × (g.mounts ≡ before ++ later)
    × (g' ≡ record g { mounts = before ++ m ∷ later })

-- The mount size does not reach the size asked for.
abbrev pub IsBelow : Option Size → Size → Type 0
IsBelow none to = Unit
IsBelow (some h) to = h.bytes < to.bytes

-- The sizes that the texts of the calls stand for.
abbrev pub IsPrinted : Size → Type 0
IsPrinted s = s.bytes < 2 ^ 53

pub record Documented (fl : Float) (after : Call → GuestConfig → GuestConfig) : Type 0 where
  -- An option takes the text that it is set to.
  pub features_set :
      (s : Text) (g : GuestConfig)
      → after (set_options (codes "--features" ∷ s ∷ [])) g ≡ record g { features = features_of s }
  pub tags_set :
      (s : Text) (g : GuestConfig)
      → after (set_options (codes "--tags" ∷ s ∷ [])) g ≡ record g { tags = tags_of s }
  -- `STORAGE:SIZE` at a free `mpN` allocates a disk of that size, up to the rounding of the storage.
  pub disk_made :
      (g : GuestConfig) (i : ℕ) (mp storage : Text) (size : Size) (backup : Bool)
      → IsKeyFree (mp_key i) g.mounts
      → Lacks b',' mp
      → IsPrinted size
      → (m : Mount) × (m.key ≡ mp_key i)
        × (m.mp ≡ some mp)
        × IsEnough m.size size
        × (m.backup ≡ backup)
        × Adds g m (after (set_options (mp_arg i ∷ disk_arg mp storage size backup ∷ [])) g)
  -- A path at a free `mpN` is mounted.
  pub bind_made :
      (g : GuestConfig) (i : ℕ) (mp path : Text)
      → IsKeyFree (mp_key i) g.mounts
      → Lacks b',' mp
      → Lacks b',' path
      → (m : Mount) × (m.key ≡ mp_key i)
        × (m.mp ≡ some mp)
        × Adds g m (after (set_options (mp_arg i ∷ bind_arg mp path ∷ [])) g)
  -- A resize to more than the size there is leaves the size asked for, up to the same rounding.
  pub disk_resized :
      (g : GuestConfig) (before later : List Mount) (m : Mount) (to : Size)
      → g.mounts ≡ before ++ m ∷ later
      → IsKeyFree m.key before
      → IsKeyFree m.key later
      → IsBelow m.size to
      → IsPrinted to
      → (s : Size) × (to.bytes ≤ s.bytes + mib)
        × (after (resize_disk m.key (to_pct_resize to)) g
            ≡ record g { mounts = before ++ record m { size = some s } ∷ later })
  -- A mount that is set by its key takes the line given.
  pub mount_set :
      (g : GuestConfig) (before later : List Mount) (m m' n : Mount) (i : ℕ)
      → m.key ≡ mp_key i
      → g.mounts ≡ before ++ m ∷ later
      → IsKeyFree m.key before
      → IsKeyFree m.key later
      → parse fl m.key (print m') ≡ ok n
      → after (set_options ((codes "--" ++ m.key) ∷ print m' ∷ [])) g
        ≡ record g { mounts = before ++ n ∷ later }

-- The config behind the calls, in their order.
abbrev pub behind_all : (Call → GuestConfig → GuestConfig) → GuestConfig → List Call → GuestConfig
behind_all after g [] = g
behind_all after g (c ∷ cs) = behind_all after (after c g) cs
