-- ===== src/Apply/Locked.antt =====
-- src/ops/apply.rs: `apply_locked`, both halves with the pct half first.
pub mod Order
pub mod Tests
use pve_compose.Base.{ℕ, zero, suc, Bool, Option, none, some, List, [], Result, ok, err}
use pve_compose.Pct.Guest.{GuestConfig}
use pve_compose.Ops.{Ctx, Guest, LoadError, refresh_config}
use pve_compose.Ops.Selector.{Status, GuestError, require_running}
use pve_compose.Plan.Execute.{Call}
use pve_compose.Apply.Docker.{Action}
use pve_compose.Apply.Wrapper.{ApplyError, pct_apply_guest}

pub data Failure : Type 0 where
  not_running : GuestError → Failure
  not_loaded : LoadError → Failure
  pct_half : ApplyError → Failure
  docker_half : Failure

pub record Outcome : Type 0 where
  pub result : Result Failure (Unit {0})
  pub calls : List Call
  pub actions : List Action

stopped_with : Failure → List Call → Outcome
stopped_with e calls = record { result = err e; calls = calls; actions = [] }

-- `docker` is the docker half for a guest, and `config'` what a second read of the config gives.
module _ (runs : List Call → Bool) (docker : Guest → Option Bool × List Action)
    (config' : Option GuestConfig) where
  docker_result : Option Bool → Result Failure (Unit {0})
  docker_result none = err docker_half
  docker_result (some started) = ok tt

  docker_step : List Call → Result LoadError Guest → Outcome
  docker_step calls (err e) = stopped_with (not_loaded e) calls
  docker_step calls (ok g) =
      let (r, actions) = docker g in
      record { result = docker_result r; calls = calls; actions = actions }

  -- The config is read again where the pct half changed something.
  pct_step : Guest → Result ApplyError ℕ × List Call → Outcome
  pct_step g (err e, calls) = stopped_with (pct_half e) calls
  pct_step g (ok zero, calls) = docker_step calls (ok g)
  pct_step g (ok (suc n), calls) = docker_step calls (refresh_config config' g)

  loaded_step : Ctx → Result LoadError Guest → Outcome
  loaded_step ctx (err e) = stopped_with (not_loaded e) []
  loaded_step ctx (ok g) = pct_step g (pct_apply_guest runs ctx g)

  running_step : Ctx → Result LoadError Guest → Result GuestError (Unit {0}) → Outcome
  running_step ctx loaded (err e) = stopped_with (not_running e) []
  running_step ctx loaded (ok _) = loaded_step ctx loaded

  pub apply_locked : Ctx → ℕ → Option Status → Result LoadError Guest → Outcome
  apply_locked ctx vmid status loaded = running_step ctx loaded (require_running vmid status)
