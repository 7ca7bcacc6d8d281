-- ===== src/Ops/ConfigCmd/Tests.antt =====
-- A number set and unset.
use pve_compose.Base.{◌≡◌, refl, ok, codes}
use pve_compose.Config.{Config}
use pve_compose.Config.Tests.{one_node}
use pve_compose.Size.Tests.{whole}
use pve_compose.Ops.ConfigCmd.{set, unset}
use pve_compose.Ops.ConfigCmd.Keys.{unset-set_lem}

abbrev four_cores : Config
four_cores = record one_node { defaults = record one_node.defaults { cores = 4 } }

set_cores : set whole one_node (codes "a") (codes "cores") (codes "4") ≡ ok four_cores
unfolding set pve_compose.Base.text_dec pve_compose.Base.Decimal.read
set_cores = refl

unset-set_lem_example :
    unset four_cores (codes "a") (codes "cores") ≡ unset one_node (codes "a") (codes "cores")
unset-set_lem_example =
    unset-set_lem whole one_node (codes "a") (tt, tt) (codes "cores") (codes "4") four_cores
      set_cores
