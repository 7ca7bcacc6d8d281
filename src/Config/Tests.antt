-- ===== src/Config/Tests.antt =====
-- A config with a storage on one node.
use pve_compose.Base.{some, [], ◌∷◌, codes}
use pve_compose.Config.{Config, default_config}

abbrev pub one_node : Config
one_node = record default_config {
  nodes = (codes "a", record { storage = some (codes "NetApp") }) ∷ [];
}
