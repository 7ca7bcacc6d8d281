-- ===== src/Cmd/Wait/Ends.antt =====
-- The loops of src/cmd.rs end by the deadline, whatever the child does.
use native.Mathlib.Omega.{arith}
use pve_compose.Base.{
  ℕ, zero, suc, ◌+◌, ◌*◌, ◌≤◌, ◌≡◌, refl, sym, subst, ◌∙◌, ◌⊎◌, Bool, true, false, Option, none,
  some, leb, Bool-cases, inl, inr,
}
use pve_compose.Cmd.{Code}
use pve_compose.Cmd.Wait.{
  Waited, wait_error, running, ended, Seen, Outcome, killed_late, out_of_fuel, status_now,
  after_wait, wait_loop, after_stream, stream_loop,
}

-- A round sleeps for some time, so that the clock of a round has at least that much for each round
-- before it.
abbrev pub Advances : (seen : ℕ → Seen) (start sleep : ℕ) → Type 0
Advances seen start sleep = (round : ℕ) → start + sleep * round ≤ (seen round).now

-- The outcomes of a loop that ended by itself.
abbrev pub IsEnd : Outcome → Type 0
IsEnd out_of_fuel = ⊥
IsEnd _ = Unit

after_wait-IsEnd :
    (s : Option (Option Code)) (done late : Bool) (next : Option Code → Outcome)
    → (late ≡ false → (c : Option Code) → IsEnd (next c))
    → IsEnd (after_wait s done late next)
unfolding after_wait
after_wait-IsEnd none done late next h = tt
after_wait-IsEnd (some (some c)) true late next h = tt
after_wait-IsEnd (some (some c)) false true next h = tt
after_wait-IsEnd (some (some c)) false false next h = h refl (some c)
after_wait-IsEnd (some none) done true next h = tt
after_wait-IsEnd (some none) done false next h = h refl none

after_stream-IsEnd :
    (w : Waited) (late : Bool) (next : Outcome)
    → (late ≡ false → IsEnd next)
    → IsEnd (after_stream w late next)
after_stream-IsEnd wait_error late next h = tt
after_stream-IsEnd (ended c) late next h = tt
after_stream-IsEnd running true next h = tt
after_stream-IsEnd running false next h = h refl

module _ (seen : ℕ → Seen) (start sleep timeout : ℕ) (advances : Advances seen start sleep) where
  -- At a round behind the deadline, the clock has passed it.
  late_round : (round : ℕ) → timeout ≤ sleep * round → leb (start + timeout) (seen round).now ≡ true
  late_round round h = ground (arith, advances round)

  wait_loop-IsEnd :
      (fuel round : ℕ) (status : Option Code)
      → timeout ≤ sleep * (round + fuel)
      → IsEnd (wait_loop seen (start + timeout) (suc fuel) round status)
  unfolding wait_loop
  wait_loop-IsEnd zero round status h = elim (Bool-cases (seen round).over) [
    | inl over ↦ rw over tt
    | inr fits ↦ rw fits (
        after_wait-IsEnd (status_now status (seen round).waited) (seen round).pipes_done
          (leb (start + timeout) (seen round).now)
          (wait_loop seen (start + timeout) zero (round + 1))
          (λ soon c.
            cc (sym (late_round round (subst (λ k. timeout ≤ sleep * k) (omega arith) h)) ∙ soon)))
  ]
  wait_loop-IsEnd (suc fuel) round status h = elim (Bool-cases (seen round).over) [
    | inl over ↦ rw over tt
    | inr fits ↦ rw fits (
        after_wait-IsEnd (status_now status (seen round).waited) (seen round).pipes_done
          (leb (start + timeout) (seen round).now)
          (wait_loop seen (start + timeout) (suc fuel) (round + 1))
          (λ soon c.
            wait_loop-IsEnd fuel (round + 1) c (subst (λ k. timeout ≤ sleep * k) (omega arith) h)))
  ]

  stream_loop-IsEnd :
      (fuel round : ℕ)
      → timeout ≤ sleep * (round + fuel)
      → IsEnd (stream_loop seen (start + timeout) (suc fuel) round)
  unfolding stream_loop
  stream_loop-IsEnd zero round h =
      after_stream-IsEnd (seen round).waited (leb (start + timeout) (seen round).now) out_of_fuel
        (λ soon.
          cc (sym (late_round round (subst (λ k. timeout ≤ sleep * k) (omega arith) h)) ∙ soon))
  stream_loop-IsEnd (suc fuel) round h =
      after_stream-IsEnd (seen round).waited (leb (start + timeout) (seen round).now)
        (stream_loop seen (start + timeout) (suc fuel) (round + 1))
        (λ soon.
          stream_loop-IsEnd fuel (round + 1) (subst (λ k. timeout ≤ sleep * k) (omega arith) h))

  -- The loop with the terminal attached ends just so.
  pub stream_loop_ends :
      (fuel : ℕ) → timeout ≤ sleep * fuel → IsEnd (stream_loop seen (start + timeout) (suc fuel) 0)
  stream_loop_ends fuel h =
      stream_loop-IsEnd fuel 0 (subst (λ k. timeout ≤ sleep * k) (omega arith) h)

  -- Where the clock advances by the sleep of each round, the loop that waits for a child ends within
  -- as many rounds as the deadline has sleeps, and one more, whatever the child does and however its
  -- pipes are held.
  pub wait_loop_ends :
      (fuel : ℕ)
      → timeout ≤ sleep * fuel
      → IsEnd (wait_loop seen (start + timeout) (suc fuel) 0 none)
  wait_loop_ends fuel h =
      wait_loop-IsEnd fuel 0 none (subst (λ k. timeout ≤ sleep * k) (omega arith) h)

-- The outcomes in which a deadline was the reason.
abbrev IsLate : Outcome → Type 0
IsLate killed_late = Unit
IsLate _ = ⊥

after_wait-IsLate :
    (s : Option (Option Code)) (done late : Bool) (next : Option Code → Outcome)
    → after_wait s done late next ≡ killed_late
    → (late ≡ true) ⊎ (c : Option Code) × (next c ≡ killed_late)
unfolding after_wait
after_wait-IsLate none done late next h = cc h
after_wait-IsLate (some (some c)) true late next h = cc h
after_wait-IsLate (some (some c)) false true next h = inl refl
after_wait-IsLate (some (some c)) false false next h = inr (some c, h)
after_wait-IsLate (some none) done true next h = inl refl
after_wait-IsLate (some none) done false next h = inr (none, h)

-- A command is killed for its deadline only in a round whose clock has passed it.
pub wait_loop_late :
    (seen : ℕ → Seen) (deadline fuel round : ℕ) (status : Option Code)
    → wait_loop seen deadline fuel round status ≡ killed_late
    → (r : ℕ) × (deadline ≤ (seen r).now)
unfolding wait_loop
wait_loop_late seen deadline zero round status h = cc h
wait_loop_late seen deadline (suc fuel) round status h = elim (Bool-cases (seen round).over) [
  | inl over ↦ cc (rw over at h)
  | inr fits ↦
      elim (after_wait-IsLate (status_now status (seen round).waited) (seen round).pipes_done
        (leb deadline (seen round).now) (wait_loop seen deadline fuel (round + 1)) (rw fits at h)) [
          | inl late ↦ (round, ground arith)
          | inr (c, later) ↦ wait_loop_late seen deadline fuel (round + 1) c later
        ]
]
