-- ===== src/Cli.antt =====
-- src/main.rs: the command line, behind clap's reading of it.
pub mod Placed
pub mod Tests
use pve_compose.Base.{
  ℕ, Bool, true, false, Option, none, some, List, [], ◌∷◌, ◌++◌, map, Text, codes, text_eq, join,
  split, is_empty, if◌then◌else◌, Result, ok, err, ◌>>=◌,
}
use pve_compose.Base.Decimal.{read, u32_bound}
use pve_compose.Size.{Size}
use pve_compose.Stack.{shell_quote}
use pve_compose.Apply.Docker.{Options}
use pve_compose.Ops.{Ctx}
use pve_compose.Ops.New.{NewArgs}

pub record ApplyArgs : Type 0 where
  pub vmid : ℕ
  pub no_up : Bool

pub record StatusArgs : Type 0 where
  pub vmid : Option ℕ
  pub json : Bool

abbrev pub apply_options : ApplyArgs → Options
apply_options a = record { pull = false; no_up = a.no_up; only_if_up = false }

abbrev pub upgrade_options : Options
upgrade_options = record { pull = true; no_up = false; only_if_up = false }

pub data PctCmd : Type 0 where
  apply : ApplyArgs → PctCmd
  diff : (vmid : ℕ) → PctCmd
  status : StatusArgs → PctCmd

pub data DockerCmd : Type 0 where
  apply : ApplyArgs → DockerCmd
  diff : (vmid : ℕ) → DockerCmd
  status : StatusArgs → DockerCmd
  upgrade : (vmid : ℕ) → DockerCmd
  compose : List Text → DockerCmd

pub data ConfigCmd : Type 0 where
  set : (key value : Text) → ConfigCmd
  unset : (key : Text) → ConfigCmd

pub data Cmd : Type 0 where
  apply : ApplyArgs → Cmd
  diff : (vmid : ℕ) → Cmd
  status : StatusArgs → Cmd
  upgrade : (vmid : ℕ) → Cmd
  new : NewArgs → Cmd
  config : Option ConfigCmd → Cmd
  pct : PctCmd → Cmd
  docker : DockerCmd → Cmd
  daemon : Cmd

-- `args.get(1).and_then(|s| s.parse().ok())`
abbrev pub second_vmid : List Text → Option ℕ
second_vmid (verb ∷ v ∷ rest) = read u32_bound v
second_vmid _ = none

abbrev pct_target : PctCmd → Option ℕ
pct_target (apply a) = some a.vmid
pct_target (diff v) = some v
pct_target (status s) = s.vmid

abbrev docker_target : DockerCmd → Option ℕ
docker_target (apply a) = some a.vmid
docker_target (upgrade v) = some v
docker_target (diff v) = some v
docker_target (status s) = s.vmid
docker_target (compose args) = second_vmid args

unfoldable pub target : Cmd → Option ℕ
target (apply a) = some a.vmid
target (upgrade v) = some v
target (diff v) = some v
target (status s) = s.vmid
target (new a) = none
target daemon = none
target (config c) = none
target (pct c) = pct_target c
target (docker c) = docker_target c

pub data CliError : Type 0 where
  no_vmlist : CliError
  no_guest : (vmid : ℕ) → CliError
  not_container : (vmid : ℕ) → CliError
  no_ssh : (node : Text) → CliError
  perl_error : CliError
  usage : (verb : Text) → CliError

-- Where a command runs: here, or as a program with its arguments on the owner's node.
pub data Placement : Type 0 where
  here : Placement
  there : (program : Text) (args : List Text) (remote : Text) → Placement

-- `filter(|s| !s.is_empty())`
unfoldable pub not_empty : List Text → List Text
not_empty [] = []
not_empty (t ∷ ts) = let rest = not_empty ts in if is_empty t then rest else t ∷ rest

-- The command line that the other node's shell reads.
unfoldable pub remote_line : (argv : List Text) → Text
unfolding join
remote_line argv = codes "pve-compose " ++ join (codes " ") (map shell_quote argv)

-- The ssh command is what PVE's perl module prints, in parts behind NUL each.
abbrev ssh_to : (node : Text) → (argv : List Text) → List Text → Result CliError Placement
ssh_to node argv [] = err (no_ssh node)
ssh_to node argv (program ∷ args) =
    ok (there program (args ++ codes "-t" ∷ remote_line argv ∷ []) (remote_line argv))

-- `owner` is what `pct::owner_node` gives for the guest, a node and the kind of guest, and `printed`
-- what the perl script prints for a node.
abbrev forward :
    Ctx
    → (vmid : ℕ) → (argv : List Text) → (printed : Text → Result CliError Text)
    → Option (Text × Text)
    → Result CliError Placement
forward ctx vmid argv printed none = err (no_guest vmid)
forward ctx vmid argv printed (some (node, kind)) =
    if text_eq kind (codes "lxc")
    then (if text_eq node ctx.node
        then ok here
        else printed node >>= (λ out. ssh_to node argv (not_empty (split 0 out))))
    else err (not_container vmid)

abbrev place_target :
    Ctx
    → (argv : List Text) → (printed : Text → Result CliError Text)
    → (owner : ℕ → Result CliError (Option (Text × Text))) → Option ℕ
    → Result CliError Placement
place_target ctx argv printed owner none = ok here
place_target ctx argv printed owner (some vmid) = owner vmid >>= forward ctx vmid argv printed

-- The head of `run`, with `forward_if_remote`.
unfoldable pub place :
    Ctx
    → Cmd
    → (argv : List Text) → (printed : Text → Result CliError Text)
    → (owner : ℕ → Result CliError (Option (Text × Text))) → Result CliError Placement
unfolding target not_empty
place ctx cmd argv printed owner = place_target ctx argv printed owner (target cmd)

-- `pve-compose docker <verb> <vmid> [args...]`: the guest and what compose gets.
abbrev or_nothing : List Text → Text
or_nothing [] = []
or_nothing (verb ∷ args) = verb

abbrev rest_of : List Text → List Text
rest_of (verb ∷ v ∷ rest) = rest
rest_of _ = []

abbrev with_vmid : List Text → Option ℕ → Result CliError (ℕ × List Text)
with_vmid args none = err (usage (or_nothing args))
with_vmid args (some v) = ok (v, or_nothing args ∷ rest_of args)

pub compose_args : List Text → Result CliError (ℕ × List Text)
compose_args args = with_vmid args (second_vmid args)
