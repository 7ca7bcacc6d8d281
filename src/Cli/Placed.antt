-- ===== src/Cli/Placed.antt =====
-- Where the commands of src/main.rs run.
use pve_compose.Base.{
  Bool, ℕ, ◌≡◌, ◌⊎◌, refl, false, Option, none, some, List, [], ◌∷◌, ◌++◌, Text, codes, text_eq,
  split, Result, ok, err,
}
use pve_compose.Stack.Shell.{between, scan, scan-program}
use pve_compose.Ops.{Ctx}
use pve_compose.Base.Decimal.{read, u32_bound}
use pve_compose.Ops.New.{NewArgs}
use pve_compose.Cli.{
  Cmd, apply, diff, status, upgrade, new, config, pct, docker, daemon, compose, ApplyArgs,
  ConfigCmd, CliError, Placement, here, there, not_empty, remote_line,
}

-- The other node's shell reads the program's name and the very arguments.
pub scan-remote_line :
    (argv : List Text) → scan between (remote_line argv) ≡ some (codes "pve-compose" ∷ argv)
unfolding remote_line
scan-remote_line argv = scan-program (codes "pve-compose") argv refl

-- The guest that a command names, if it names one. `docker <verb> <vmid> …` names its second argument
-- where that is a number; `new`, `config` and `daemon` name none, nor does `status` alone.
pub data IsAbout : Cmd → Option ℕ → Type 0 where
  by_apply : (a : ApplyArgs) → IsAbout (apply a) (some a.vmid)
  by_diff : (v : ℕ) → IsAbout (diff v) (some v)
  by_status :
      (v : ℕ) (json : Bool) → IsAbout (status (record { vmid = some v; json = json })) (some v)
  by_upgrade : (v : ℕ) → IsAbout (upgrade v) (some v)
  by_pct_apply : (a : ApplyArgs) → IsAbout (pct (apply a)) (some a.vmid)
  by_pct_diff : (v : ℕ) → IsAbout (pct (diff v)) (some v)
  by_pct_status :
      (v : ℕ) (json : Bool)
      → IsAbout (pct (status (record { vmid = some v; json = json }))) (some v)
  by_docker_apply : (a : ApplyArgs) → IsAbout (docker (apply a)) (some a.vmid)
  by_docker_diff : (v : ℕ) → IsAbout (docker (diff v)) (some v)
  by_docker_status :
      (v : ℕ) (json : Bool)
      → IsAbout (docker (status (record { vmid = some v; json = json }))) (some v)
  by_docker_upgrade : (v : ℕ) → IsAbout (docker (upgrade v)) (some v)
  by_docker_compose :
      (verb number : Text) (rest : List Text) (v : ℕ)
      → read u32_bound number ≡ some v
      → IsAbout (docker (compose (verb ∷ number ∷ rest))) (some v)
  by_new : (a : NewArgs) → IsAbout (new a) none
  by_config : (c : Option ConfigCmd) → IsAbout (config c) none
  by_daemon : IsAbout daemon none
  by_status_of_all : (json : Bool) → IsAbout (status (record { vmid = none; json = json })) none

-- A command runs here if it is about no guest, or about a container of this node. It is sent away only
-- for a container of another node, by the ssh command that PVE prints for that node, whose shell reads
-- the same arguments; and each error has its cause.
abbrev pub IsPlaced :
    Ctx
    → (argv : List Text) → (printed : Text → Result CliError Text)
    → (owner : ℕ → Result CliError (Option (Text × Text))) → Option ℕ
    → Result CliError Placement
    → Type 0
IsPlaced ctx argv printed owner none r = r ≡ ok here
IsPlaced ctx argv printed owner (some vmid) (ok here) =
    owner vmid ≡ ok (some (ctx.node, codes "lxc"))
IsPlaced ctx argv printed owner (some vmid) (ok (there program args remote)) =
    (node : Text) × (owner vmid ≡ ok (some (node, codes "lxc")))
    × (text_eq node ctx.node ≡ false)
    × (out : Text) × (printed node ≡ ok out)
    × (words : List Text) × (not_empty (split 0 out) ≡ program ∷ words)
    × (args ≡ words ++ codes "-t" ∷ remote ∷ [])
    × (scan between remote ≡ some (codes "pve-compose" ∷ argv))
IsPlaced ctx argv printed owner (some vmid) (err e) =
    (owner vmid ≡ err e)
    ⊎ (owner vmid ≡ ok none)
    ⊎ ((node : Text) × (kind : Text) × (owner vmid ≡ ok (some (node, kind)))
        × ((text_eq kind (codes "lxc") ≡ false)
            ⊎ (text_eq node ctx.node ≡ false)
              × ((printed node ≡ err e)
                  ⊎ ((out : Text) × (printed node ≡ ok out) × (not_empty (split 0 out) ≡ [])))))
