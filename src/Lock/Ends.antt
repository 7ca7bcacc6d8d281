-- ===== src/Lock/Ends.antt =====
-- How the loop of src/lock.rs ends.
use native.Mathlib.Omega.{arith}
use pve_compose.Base.{
  ℕ, zero, suc, ◌+◌, ◌*◌, ◌≤◌, ◌≡◌, refl, sym, subst, ◌∙◌, Bool, true, false, leb,
}
use pve_compose.Lock.{
  Flock, taken, would_block, failed, Look, Outcome, locked, flock_failed, busy, out_of_fuel,
  after_flock, take_loop, sleep,
}

-- The loop ends by itself: with the lock in a round in which `flock` gave it, with an error in a round
-- in which `flock` failed, and as busy only in a round that found the lock held and the deadline past.
abbrev pub IsEnd : (look : ℕ → Look) → (deadline : ℕ) → Outcome → Type 0
IsEnd look deadline (locked round) = (look round).flock ≡ taken
IsEnd look deadline (flock_failed round) = (look round).flock ≡ failed
IsEnd look deadline (busy round) =
    ((look round).flock ≡ would_block) × (deadline ≤ (look round).now)
IsEnd look deadline out_of_fuel = ⊥

abbrev pub Advances : (look : ℕ → Look) → (start : ℕ) → Type 0
Advances look start = (round : ℕ) → start + sleep * round ≤ (look round).now

module _ (look : ℕ → Look) (deadline : ℕ) where
  after_flock-IsEnd :
      (round : ℕ) (f : Flock) (late : Bool) (next : Outcome)
      → (look round).flock ≡ f
      → leb deadline (look round).now ≡ late
      → (late ≡ false → IsEnd look deadline next)
      → IsEnd look deadline (after_flock round f late next)
  after_flock-IsEnd round taken late next h k rest = h
  after_flock-IsEnd round failed late next h k rest = h
  after_flock-IsEnd round would_block true next h k rest = (h, ground (arith, k))
  after_flock-IsEnd round would_block false next h k rest = rest refl

module _ (look : ℕ → Look) (start wait : ℕ) (advances : Advances look start) where
  late_round : (round : ℕ) → wait ≤ sleep * round → leb (start + wait) (look round).now ≡ true
  late_round round h = ground (arith, advances round)

  take_loop-IsEnd :
      (fuel round : ℕ)
      → wait ≤ sleep * (round + fuel)
      → IsEnd look (start + wait) (take_loop look (start + wait) (suc fuel) round)
  unfolding take_loop
  take_loop-IsEnd zero round h =
      after_flock-IsEnd look (start + wait) round (look round).flock _ out_of_fuel refl refl
        (λ soon. cc (sym (late_round round (subst (λ k. wait ≤ sleep * k) (omega arith) h)) ∙ soon))
  take_loop-IsEnd (suc fuel) round h =
      after_flock-IsEnd look (start + wait) round (look round).flock _
        (take_loop look (start + wait) (suc fuel) (round + 1)) refl refl
        (λ soon. take_loop-IsEnd fuel (round + 1) (subst (λ k. wait ≤ sleep * k) (omega arith) h))

  -- Where the clock advances by the sleep of each round, waiting for a lock ends, whoever holds it: after at most as many sleeps as the wait has, with the
  -- lock, with an error of `flock`, or as busy at a lock still held when the deadline has passed.
  pub take_loop_ends :
      (fuel : ℕ)
      → wait ≤ sleep * fuel
      → IsEnd look (start + wait) (take_loop look (start + wait) (suc fuel) 0)
  take_loop_ends fuel h = take_loop-IsEnd fuel 0 (subst (λ k. wait ≤ sleep * k) (omega arith) h)
