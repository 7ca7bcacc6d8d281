-- ===== src/Cli/Tests.antt =====
-- A command for a guest of another node.
use pve_compose.Base.{refl, ◌++◌, none, some, List, [], ◌∷◌, Text, codes, ok, Result}
use pve_compose.Config.{default_config}
use pve_compose.Ops.{Ctx}
use pve_compose.Cli.{Cmd, docker, compose, place, CliError, Placement, here}
use pve_compose.Base.Decimal.{read}

abbrev ctx : Ctx
ctx = record { node = codes "n1"; config = default_config; tag = none }

abbrev logs : Cmd
logs = docker (compose (codes "logs" ∷ codes "105" ∷ codes "-f" ∷ []))

abbrev argv : List Text
argv = codes "docker" ∷ codes "logs" ∷ codes "105" ∷ codes "-f" ∷ []

abbrev printed : Text → Result CliError Text
printed node = ok (codes "ssh" ++ 0 ∷ node ++ 0 ∷ [])

stays :
    Path
      (Result CliError Placement)
      (place ctx logs argv printed (λ v. ok (some (codes "n1", codes "lxc"))))
      (ok here)
unfolding place pve_compose.Base.Decimal.read pve_compose.Base.text_dec
stays = refl
