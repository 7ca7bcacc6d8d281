-- ===== src/Verbs/Dispatch.antt =====
-- src/main.rs: the `match` of `run` on the command.
use pve_compose.Base.{ℕ, Bool, Option, none, some, Text, Result, ok, ◌>>=◌}
use pve_compose.Cli.{
  Cmd, apply, diff, status, upgrade, new, config, pct, docker, daemon, PctCmd, DockerCmd, compose,
  ConfigCmd, set, unset, StatusArgs, apply_options, upgrade_options, CliError, compose_args,
}
use pve_compose.Ops.Status
use pve_compose.Ops.Status.{Level, both}
use pve_compose.Ops.New.{NewArgs, WrapperSpec}
use pve_compose.Verbs
use pve_compose.Verbs.{Verb, pct_apply, docker_apply, docker_upgrade}

-- The function of `ops` that a command comes to, with its arguments.
pub data Handler : Type 0 where
  on_guest : Verb → Handler
  show_diff : Level → (vmid : ℕ) → Handler
  show_status : StatusArgs → Level → Handler
  config_show : Handler
  config_set : (key value : Text) → Handler
  config_unset : (key : Text) → Handler
  run_daemon : Handler

-- `changed` is what a pct half says, and `wrapper` what `new` settles.
module _ (changed : Bool) (wrapper : NewArgs → WrapperSpec) where
  abbrev dispatch_pct : PctCmd → Handler
  dispatch_pct (apply a) = on_guest (pct_apply a.vmid)
  dispatch_pct (diff v) = show_diff Status.pct v
  dispatch_pct (status s) = show_status s Status.pct

  abbrev dispatch_docker : DockerCmd → Result CliError Handler
  dispatch_docker (apply a) = ok (on_guest (docker_apply a.vmid (apply_options a)))
  dispatch_docker (diff v) = ok (show_diff Status.docker v)
  dispatch_docker (status s) = ok (show_status s Status.docker)
  dispatch_docker (upgrade v) = ok (on_guest (docker_upgrade v upgrade_options))
  dispatch_docker (compose args) = do
    (v, rest) ← compose_args args
    ok (on_guest (Verbs.compose v rest))

  abbrev dispatch_config : Option ConfigCmd → Handler
  dispatch_config none = config_show
  dispatch_config (some (set key value)) = config_set key value
  dispatch_config (some (unset key)) = config_unset key

  unfoldable pub dispatch : Cmd → Result CliError Handler
  dispatch (apply a) = ok (on_guest (Verbs.apply a.vmid (apply_options a) changed))
  dispatch (diff v) = ok (show_diff both v)
  dispatch (status s) = ok (show_status s both)
  dispatch (upgrade v) = ok (on_guest (Verbs.upgrade v upgrade_options changed))
  dispatch (new a) = ok (on_guest (Verbs.new (wrapper a) a.no_up changed))
  dispatch (config c) = ok (dispatch_config c)
  dispatch (pct c) = ok (dispatch_pct c)
  dispatch (docker c) = dispatch_docker c
  dispatch daemon = ok run_daemon
