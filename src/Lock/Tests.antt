-- ===== src/Lock/Tests.antt =====
-- A lock that another process holds for a second.
use native.Mathlib.Omega.{arith}
use pve_compose.Base.{
  ℕ, ◌+◌, ◌*◌, ◌≡◌, refl, ltb, if◌then◌else◌, Bool, true, false, List, [], ◌∷◌, ◌==◌, Bool-cases,
  inl, inr,
}
use pve_compose.Base.Calls.{run}
use pve_compose.Doc.{default_policy}
use pve_compose.Cli.{pct, apply}
use pve_compose.Verbs.{
  Event, take_lock, drop_lock, require_running, listed_running, load_guest, pct_half, read_facts,
  pct_apply, guest_pass, run_verb,
}
use pve_compose.Verbs.Tests.{wrapper, pct_apply_101}
use pve_compose.Lock.{Look, taken, would_block, locked, take_loop}
use pve_compose.Lock.Exclusive.{
  Steps, done, called, nobody, events_of, IsVerbRun, IsExclusive, verbs-IsExclusive,
}
use pve_compose.Lock.Ends.{IsEnd, take_loop_ends}

abbrev look : ℕ → Look
look round = record { flock = if ltb round 4 then would_block else taken; now = 10 + 250 * round }

got : take_loop look 2010 9 0 ≡ locked 4
unfolding take_loop
got = refl

take_loop_ends_example : IsEnd look 2010 (take_loop look 2010 9 0)
take_loop_ends_example = take_loop_ends look 10 2000 (λ round. omega arith) 8 (omega arith)

-- `pct apply 101` as process 1, which waits in the middle, and the daemon's work on it as process 2.
abbrev two_processes : List (ℕ × Event)
two_processes =
    (1, take_lock 101)
    ∷ (2, listed_running 101)
    ∷ (1, require_running 101)
    ∷ (1, load_guest 101)
    ∷ (1, pct_half 101)
    ∷ (1, drop_lock 101)
    ∷ (2, take_lock 101)
    ∷ (2, load_guest 101)
    ∷ (2, pct_half 101)
    ∷ []

in_turns : Steps nobody two_processes
in_turns = called 1 (take_lock 101) refl (
    called 2 (listed_running 101) tt (
      called 1 (require_running 101) tt (
        called 1 (load_guest 101) tt (
          called 1 (pct_half 101) tt (
            called 1 (drop_lock 101) refl (
              called 2 (take_lock 101) refl
                (called 2 (load_guest 101) tt (called 2 (pct_half 101) tt done))))))))

abbrev always : List Event → Bool
always events = true

runs_of : (p : ℕ) → IsVerbRun (events_of p two_processes)
unfolding run_verb run pct_apply guest_pass
runs_of p = elim (Bool-cases (1 == p)) [
  | inl one ↦ elim (Bool-cases (2 == p)) [
    | inl two ↦ absurd (ground arith)
    | inr not_two ↦
        rw (one, not_two)
          (inr (
            inl (
              false,
              wrapper,
              always,
              pct (apply (record { vmid = 101; no_up = false })),
              pct_apply 101,
              [],
              pct_apply_101,
              refl,
            )))
  ]
  | inr not_one ↦ elim (Bool-cases (2 == p)) [
    | inl two ↦
        rw (not_one, two)
          (inr (
            inr (
              always,
              101,
              default_policy,
              false,
              true,
              read_facts 101 ∷ drop_lock 101 ∷ [],
              refl,
            )))
    | inr not_two ↦ rw (not_one, not_two) (inl refl)
  ]
]

verbs-IsExclusive_example : IsExclusive in_turns
verbs-IsExclusive_example = verbs-IsExclusive in_turns runs_of
