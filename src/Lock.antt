-- ===== src/Lock.antt =====
-- src/lock.rs: the loop that waits for a guest's lock.
pub mod Ends
pub mod Exclusive
pub mod Tests
use pve_compose.Base.{ℕ, zero, suc, ◌+◌, Bool, true, false, leb, if◌then◌else◌}

-- What `flock` gives: the lock, `EWOULDBLOCK`, or another error.
pub data Flock : Type 0 where
  taken : Flock
  would_block : Flock
  failed : Flock

-- One round: what `flock` gives, and the clock in milliseconds when it is read.
pub record Look : Type 0 where
  pub flock : Flock
  pub now : ℕ

pub data Outcome : Type 0 where
  locked : (round : ℕ) → Outcome
  flock_failed : (round : ℕ) → Outcome
  busy : (round : ℕ) → Outcome
  out_of_fuel : Outcome

abbrev after_flock : (round : ℕ) → Flock → (late : Bool) → Outcome → Outcome
after_flock round taken late next = locked round
after_flock round failed late next = flock_failed round
after_flock round would_block true next = busy round
after_flock round would_block false next = next

-- The loop of `take`; between two rounds it sleeps.
unfoldable pub take_loop : (look : ℕ → Look) → (deadline fuel round : ℕ) → Outcome
take_loop look deadline zero round = out_of_fuel
take_loop look deadline (suc fuel) round =
    after_flock round (look round).flock (leb deadline (look round).now)
      (take_loop look deadline fuel (round + 1))

-- The sleep between two rounds, in milliseconds.
abbrev pub sleep : ℕ
sleep = 250
