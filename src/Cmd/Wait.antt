-- ===== src/Cmd/Wait.antt =====
-- src/cmd.rs: the loop of `run_status_within`, and that of `stream_within`.
pub mod Ends
use pve_compose.Base.{
  ℕ, zero, suc, ◌+◌, Bool, true, false, ◌&&◌, not, Option, none, some, Text, is_some, trim, leb,
  if◌then◌else◌, Result, ok, err,
}
use pve_compose.Cmd.{Code, exit, minus_one, Output, CmdError, wait_failed, too_much, no_answer}

-- What `try_wait` gives: an error, a child that runs, or how it ended.
pub data Waited : Type 0 where
  wait_error : Waited
  running : Waited
  ended : Code → Waited

-- What one round of the loop sees of the child and of the clock, in milliseconds.
pub record Seen : Type 0 where
  pub over : Bool
  pub waited : Waited
  pub pipes_done : Bool
  pub now : ℕ

pub data Outcome : Type 0 where
  -- The command has exited and both pipes are at their end.
  finished : (status : Code) → Outcome
  -- The whole process group has been killed.
  killed_over : Outcome
  killed_late : Outcome
  -- `try_wait` has failed, and nothing is killed.
  lost : Outcome
  out_of_fuel : Outcome

-- The status of a round: `try_wait` is asked only while there is none.
status_now : Option Code → Waited → Option (Option Code)
status_now (some c) waited = some (some c)
status_now none wait_error = none
status_now none running = some none
status_now none (ended c) = some (some c)

-- The end of a round: what it has of the status, whether the pipes are done and whether the deadline
-- has passed, and the rest of the loop.
after_wait : Option (Option Code) → (pipes_done late : Bool) → (Option Code → Outcome) → Outcome
after_wait none pipes_done late next = lost
after_wait (some (some c)) true late next = finished c
after_wait (some (some c)) false late next = if late then killed_late else next (some c)
after_wait (some none) pipes_done late next = if late then killed_late else next none

-- `seen` says what each round sees.
module _ (seen : ℕ → Seen) (deadline : ℕ) where
  unfoldable pub wait_loop : (fuel round : ℕ) → Option Code → Outcome
  unfolding after_wait status_now
  wait_loop zero round status = out_of_fuel
  wait_loop (suc fuel) round status =
      if (seen round).over
      then killed_over
      else after_wait (status_now status (seen round).waited) (seen round).pipes_done
          (leb deadline (seen round).now) (wait_loop fuel (round + 1))

-- The output of a command, from the outcome of the loop, what the readers got, and whether one of
-- them was over its cap in the end.
pub output_of :
    (what : Text) → Outcome → (over : Bool) → (stdout stderr : Text) → Result CmdError Output
output_of what (finished c) over stdout stderr =
    if over
    then err (too_much what)
    else ok (record { status = c; stdout = stdout; stderr = trim stderr })
output_of what killed_over over stdout stderr = err (too_much what)
output_of what killed_late over stdout stderr = err (no_answer what)
output_of what lost over stdout stderr = err wait_failed
output_of what out_of_fuel over stdout stderr = err wait_failed

-- `stream_within`, which has no pipes and looks at the clock only while the child runs.
abbrev pub after_stream : Waited → (late : Bool) → Outcome → Outcome
after_stream wait_error late next = lost
after_stream (ended c) late next = finished c
after_stream running late next = if late then killed_late else next

module _ (seen : ℕ → Seen) (deadline : ℕ) where
  unfoldable pub stream_loop : (fuel round : ℕ) → Outcome
  stream_loop zero round = out_of_fuel
  stream_loop (suc fuel) round =
      let next = stream_loop fuel (round + 1) in
      after_stream (seen round).waited (leb deadline (seen round).now) next
