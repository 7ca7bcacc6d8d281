-- ===== src/Cmd/Tests.antt =====
-- Waiting for a concrete child, and the theorems there.
use native.Mathlib.Omega.{arith}
use pve_compose.Base.{ℕ, ◌+◌, ◌*◌, ◌≡◌, refl, true, false, none, [], ◌∷◌, codes, ltb, if◌then◌else◌}
use pve_compose.Cmd.{exit, render, capped}
use pve_compose.Cmd.Wait.{Seen, running, ended, killed_late, wait_loop}
use pve_compose.Cmd.Wait.Ends.{Advances, IsEnd, wait_loop_ends}
use pve_compose.Cmd.Capped.{KeepsWithin, concat, capped_lem}

-- A child that ends in its third round, and that leaves something behind that holds a pipe.
abbrev holding : ℕ → Seen
holding round = record {
  over = false;
  waited = if ltb round 2 then running else ended (exit 0);
  pipes_done = false;
  now = 1000 + 20 * round;
}

holding-Advances : Advances holding 1000 20
holding-Advances round = omega arith

timed_out : wait_loop holding (1000 + 100) 6 0 none ≡ killed_late
unfolding wait_loop
timed_out = refl

wait_loop_ends_example : IsEnd (wait_loop holding (1000 + 100) 6 0 none)
wait_loop_ends_example = wait_loop_ends holding 1000 20 100 holding-Advances 5 (omega arith)

cut : capped 4 [] ((1 ∷ 2 ∷ []) ∷ (3 ∷ []) ∷ (4 ∷ 5 ∷ []) ∷ []) ≡ (1 ∷ 2 ∷ 3 ∷ [], true)
unfolding capped
cut = refl

capped_lem_example :
    KeepsWithin 4
      (concat ((1 ∷ 2 ∷ []) ∷ (3 ∷ []) ∷ (4 ∷ 5 ∷ []) ∷ []))
      (capped 4 [] ((1 ∷ 2 ∷ []) ∷ (3 ∷ []) ∷ (4 ∷ 5 ∷ []) ∷ []))
capped_lem_example = capped_lem 4 ((1 ∷ 2 ∷ []) ∷ (3 ∷ []) ∷ (4 ∷ 5 ∷ []) ∷ [])

line : render (codes "pct") (codes "set" ∷ codes "a b" ∷ codes "" ∷ []) ≡ codes "pct set 'a b' ''"
unfolding render
line = refl
