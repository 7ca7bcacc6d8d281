-- ===== src/Pct/Ready/Ends.antt =====
-- How `wait_ready` of src/pct.rs ends.
use native.Mathlib.Omega.{arith}
use pve_compose.Base.{
  ℕ, zero, suc, ◌+◌, ◌*◌, ◌≤◌, ◌≡◌, sym, subst, ◌∙◌, true, false, leb, Bool-cases, inl, inr,
}
use pve_compose.Pct.Ready.{Probe, Outcome, ready, no_route, out_of_fuel, is_ready, wait_ready}

-- It gives up only in a round that had no route with the clock behind the deadline.
abbrev pub IsEnd : (probe : ℕ → Probe) → (deadline : ℕ) → Outcome → Type 0
IsEnd probe deadline (ready round) = is_ready (probe round).answer ≡ true
IsEnd probe deadline (no_route round) =
    (is_ready (probe round).answer ≡ false) × (leb deadline (probe round).now ≡ true)
IsEnd probe deadline out_of_fuel = ⊥

module _ (probe : ℕ → Probe) (start secs : ℕ)
    (advances : (round : ℕ) → start + 2 * round ≤ (probe round).now) where
  late_round : (round : ℕ) → secs ≤ 2 * round → leb (start + secs) (probe round).now ≡ true
  late_round round h = ground (arith, advances round)

  -- One round, for whatever the rest of the loop gives.
  round-IsEnd :
      (fuel round : ℕ)
      → (leb (start + secs) (probe round).now ≡ false
          → IsEnd probe (start + secs) (wait_ready probe (start + secs) fuel (round + 1)))
      → IsEnd probe (start + secs) (wait_ready probe (start + secs) (suc fuel) round)
  unfolding wait_ready
  round-IsEnd fuel round rest = elim (Bool-cases (is_ready (probe round).answer)) [
    | inl up ↦ rw up up
    | inr down ↦ elim (Bool-cases (leb (start + secs) (probe round).now)) [
      | inl late ↦ rw (down, late) (down, late)
      | inr soon ↦ rw (down, soon) (rest soon)
    ]
  ]

  wait_ready-IsEnd :
      (fuel round : ℕ)
      → secs ≤ 2 * (round + fuel)
      → IsEnd probe (start + secs) (wait_ready probe (start + secs) (suc fuel) round)
  wait_ready-IsEnd zero round h =
      round-IsEnd zero round
        (λ soon. cc (sym (late_round round (subst (λ k. secs ≤ 2 * k) (omega arith) h)) ∙ soon))
  wait_ready-IsEnd (suc fuel) round h =
      round-IsEnd (suc fuel) round
        (λ soon. wait_ready-IsEnd fuel (round + 1) (subst (λ k. secs ≤ 2 * k) (omega arith) h))

  -- Waiting for a guest ends, after at most as many sleeps as the time has: in a round in which it had
  -- a route, or in one in which it had none and the time was over.
  pub wait_ready_ends :
      (fuel : ℕ)
      → secs ≤ 2 * fuel
      → IsEnd probe (start + secs) (wait_ready probe (start + secs) (suc fuel) 0)
  wait_ready_ends fuel h = wait_ready-IsEnd fuel 0 (subst (λ k. secs ≤ 2 * k) (omega arith) h)
