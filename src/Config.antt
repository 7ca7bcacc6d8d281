-- ===== src/Config.antt =====
-- src/config.rs: the operator's choices.
pub mod Nodes
pub mod File
pub mod Tests
use pve_compose.Base.{
  Bool, ℕ, ◌*◌, Option, none, some, List, [], ◌∷◌, Text, codes, is_empty, text_eq, ◌==◌,
  if◌then◌else◌,
}
use pve_compose.Base.Dict.{Dict, lookup, insert, remove}
use pve_compose.Size.{Size, gib}

pub record Template : Type 0 where
  pub storage : Option Text
  pub base : Text

pub record Defaults : Type 0 where
  pub rootfs_size : Size
  pub owner : Text
  pub bridge : Text
  pub cores : ℕ
  pub memory : ℕ

pub record NodeOverrides : Type 0 where
  pub storage : Option Text

pub record Limits : Type 0 where
  pub bind_roots : List Text
  pub storages : List Text
  pub max_disk_gib : ℕ

pub record Daemon : Type 0 where
  pub interval : ℕ
  pub full_every : ℕ

pub record Config : Type 0 where
  pub template : Template
  pub defaults : Defaults
  pub nodes : Dict NodeOverrides
  pub limits : Limits
  pub daemon : Daemon

abbrev pub default_template : Template
default_template = record { storage = none; base = codes "debian-13-standard" }

-- `"8G".parse().unwrap()`
abbrev pub default_defaults : Defaults
default_defaults = record {
  rootfs_size = record { bytes = 8 * gib };
  owner = codes "1000:1000";
  bridge = codes "vmbr0";
  cores = 2;
  memory = 2048;
}

abbrev pub default_limits : Limits
default_limits = record { bind_roots = []; storages = []; max_disk_gib = 64 }

abbrev pub default_daemon : Daemon
default_daemon = record { interval = 30; full_every = 600 }

abbrev pub default_config : Config
default_config = record {
  template = default_template;
  defaults = default_defaults;
  nodes = [];
  limits = default_limits;
  daemon = default_daemon;
}

abbrev storage_of : Option NodeOverrides → Option Text
storage_of none = none
storage_of (some n) = n.storage

unfoldable pub storage_for : Config → Text → Option Text
unfolding lookup
storage_for c node = storage_of (lookup node c.nodes)

-- `option.into_iter().collect()`
abbrev pub to_list : Option Text → List Text
to_list none = []
to_list (some s) = s ∷ []

unfoldable pub limits_for : Config → Text → Limits
unfolding storage_for
limits_for c node =
    let l = c.limits in
    if is_empty l.storages then record l { storages = to_list (storage_for c node) } else l

-- `nodes.entry(node).or_default().storage = Some(s)`, and for `None` the node's entry is cleared,
-- which leaves it with no field and so removes it.
unfoldable pub set_storage_for : Config → Text → Option Text → Config
unfolding lookup insert remove
set_storage_for c node (some s) = record c {
  nodes = insert node (record { storage = some s }) c.nodes;
}
set_storage_for c node none = elim (lookup node c.nodes) [
  | none ↦ c
  | some _ ↦ record c { nodes = remove node c.nodes }
]

-- Whether a choice has its default, and is left out of the file.
pub is_d_template_base : Text → Bool
is_d_template_base v = text_eq v default_template.base

pub is_d_rootfs_size : Size → Bool
is_d_rootfs_size v = v.bytes == default_defaults.rootfs_size.bytes

pub is_d_owner : Text → Bool
is_d_owner v = text_eq v default_defaults.owner

pub is_d_bridge : Text → Bool
is_d_bridge v = text_eq v default_defaults.bridge

pub is_d_cores : ℕ → Bool
is_d_cores v = v == default_defaults.cores

pub is_d_memory : ℕ → Bool
is_d_memory v = v == default_defaults.memory

pub is_d_max_disk_gib : ℕ → Bool
is_d_max_disk_gib v = v == default_limits.max_disk_gib

pub is_d_interval : ℕ → Bool
is_d_interval v = v == default_daemon.interval

pub is_d_full_every : ℕ → Bool
is_d_full_every v = v == default_daemon.full_every
