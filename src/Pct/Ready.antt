-- ===== src/Pct/Ready.antt =====
-- src/pct.rs: `wait_ready`, the loop that waits for a guest to have a default route.
pub mod Ends
use pve_compose.Base.{ℕ, zero, suc, ◌+◌, Bool, true, false, leb, if◌then◌else◌, Result, ok, err}
use pve_compose.Cmd.{Output, is_success}
use pve_compose.Pct.Files.{FileError}

-- One round: what the call in the guest gives, and the clock in seconds when it is read.
pub record Probe : Type 0 where
  pub answer : Result FileError Output
  pub now : ℕ

pub data Outcome : Type 0 where
  ready : (round : ℕ) → Outcome
  no_route : (round : ℕ) → Outcome
  out_of_fuel : Outcome

-- An error of the call counts as no.
abbrev pub is_ready : Result FileError Output → Bool
is_ready (err e) = false
is_ready (ok out) = is_success out.status

unfoldable pub wait_ready : (probe : ℕ → Probe) → (deadline fuel round : ℕ) → Outcome
wait_ready probe deadline zero round = out_of_fuel
wait_ready probe deadline (suc fuel) round =
    let next = wait_ready probe deadline fuel (round + 1) in
    if is_ready (probe round).answer
    then ready round
    else if leb deadline (probe round).now
    then no_route round
    else next
