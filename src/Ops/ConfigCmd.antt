-- ===== src/Ops/ConfigCmd.antt =====
-- src/ops/configcmd.rs: the persisted choices shown and changed by their keys.
pub mod Keys
pub mod Tests
use pve_compose.Base.{
  ℕ, Bool, ◌++◌, Option, none, some, List, [], ◌∷◌, Text, codes, text_eq, any, join, if◌then◌else◌,
  Result, ok, err, ◌>>=◌, map_err, ok_or,
}
use pve_compose.Base.Decimal.{show, read, u32_bound, u64_bound}
use pve_compose.Size.{Size, SizeError, Float, from_str, display}
use pve_compose.Config.{
  Config, storage_for, set_storage_for, default_config, is_d_template_base, is_d_owner, is_d_bridge,
  is_d_cores, is_d_memory, is_d_rootfs_size,
}
use pve_compose.Spec.Bounds.{SpecError, split_owner}

-- The keys of `KEYS`, without their descriptions.
abbrev pub config_keys : List Text
config_keys =
    codes "storage"
    ∷ codes "template-storage"
    ∷ codes "template-base"
    ∷ codes "owner"
    ∷ codes "bridge"
    ∷ codes "cores"
    ∷ codes "memory"
    ∷ codes "rootfs-size"
    ∷ []

pub keys : Text
keys = join (codes ", ") config_keys

pub data ConfigError : Type 0 where
  unknown_key : (key : Text) → ConfigError
  bad_owner_value : SpecError → ConfigError
  bad_number : (value : Text) → ConfigError
  bad_size_value : SizeError → ConfigError

-- The `match` of `set`, on the config as the file has it.
module _ (fl : Float) where
  unfoldable pub set : Config → (node key value : Text) → Result ConfigError Config
  set c node key value =
      if text_eq key (codes "storage")
      then ok (set_storage_for c node (some value))
      else if text_eq key (codes "template-storage")
      then ok (record c { template = record c.template { storage = some value } })
      else if text_eq key (codes "template-base")
      then ok (record c { template = record c.template { base = value } })
      else if text_eq key (codes "owner")
      then map_err bad_owner_value (split_owner value)
        >>= (λ _. ok (record c { defaults = record c.defaults { owner = value } }))
      else if text_eq key (codes "bridge")
      then ok (record c { defaults = record c.defaults { bridge = value } })
      else if text_eq key (codes "cores")
      then ok_or (read u32_bound value) (bad_number value)
        >>= (λ n. ok (record c { defaults = record c.defaults { cores = n } }))
      else if text_eq key (codes "memory")
      then ok_or (read u64_bound value) (bad_number value)
        >>= (λ n. ok (record c { defaults = record c.defaults { memory = n } }))
      else if text_eq key (codes "rootfs-size")
      then map_err bad_size_value (from_str fl value)
        >>= (λ s. ok (record c { defaults = record c.defaults { rootfs_size = s } }))
      else err (unknown_key key)

-- The `match` of `unset`.
unfoldable pub unset : Config → (node key : Text) → Result ConfigError Config
unset c node key =
    let d = default_config in
    if text_eq key (codes "storage")
    then ok (set_storage_for c node none)
    else if text_eq key (codes "template-storage")
    then ok (record c { template = record c.template { storage = none } })
    else if text_eq key (codes "template-base")
    then ok (record c { template = record c.template { base = d.template.base } })
    else if text_eq key (codes "owner")
    then ok (record c { defaults = record c.defaults { owner = d.defaults.owner } })
    else if text_eq key (codes "bridge")
    then ok (record c { defaults = record c.defaults { bridge = d.defaults.bridge } })
    else if text_eq key (codes "cores")
    then ok (record c { defaults = record c.defaults { cores = d.defaults.cores } })
    else if text_eq key (codes "memory")
    then ok (record c { defaults = record c.defaults { memory = d.defaults.memory } })
    else if text_eq key (codes "rootfs-size")
    then ok (record c { defaults = record c.defaults { rootfs_size = d.defaults.rootfs_size } })
    else err (unknown_key key)

-- A row of `show`: key, value and source.
abbrev pub Shown : Type 0
Shown = Text × Text × Text

abbrev source : Bool → Text
source same = if same then codes "default" else codes "cluster"

abbrev storage_row : Text → Option Text → Shown
storage_row node (some s) = (codes "storage", s, codes "node " ++ node)
storage_row node none =
    (codes "storage", codes "-", codes "unset: `new` asks, x-pve disks need a storage")

abbrev template_row : Option Text → Shown
template_row (some s) = (codes "template-storage", s, codes "cluster")
template_row none = (codes "template-storage", codes "-", codes "unset: `new` asks")

-- The rows that `show` prints.
unfoldable pub rows : Config → (node : Text) → List Shown
rows c node =
    let d = c.defaults in
    storage_row node (storage_for c node)
    ∷ template_row c.template.storage
    ∷ (codes "template-base", c.template.base, source (is_d_template_base c.template.base))
    ∷ (codes "owner", d.owner, source (is_d_owner d.owner))
    ∷ (codes "bridge", d.bridge, source (is_d_bridge d.bridge))
    ∷ (codes "cores", show d.cores, source (is_d_cores d.cores))
    ∷ (codes "memory", show d.memory, source (is_d_memory d.memory))
    ∷ (codes "rootfs-size", display d.rootfs_size, source (is_d_rootfs_size d.rootfs_size))
    ∷ []
