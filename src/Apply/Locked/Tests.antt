-- ===== src/Apply/Locked/Tests.antt =====
-- Both halves at a guest whose disk is to grow.
use pve_compose.Base.{true, some, [], ◌∷◌, ok}
use pve_compose.Apply.Docker.{compose_up}
use pve_compose.Apply.Wrapper.Tests.{ctx, loaded, all_run}
use pve_compose.Ops.Selector.{running}
use pve_compose.Apply.Locked.{apply_locked}
use pve_compose.Apply.Locked.Order.{IsOrdered, apply_locked-IsOrdered}

apply_locked-IsOrdered_example :
    IsOrdered all_run
      (λ g. (some true, compose_up ∷ []))
      (some loaded.config)
      ctx
      (some running)
      (ok loaded)
      (apply_locked all_run
        (λ g. (some true, compose_up ∷ []))
        (some loaded.config)
        ctx
        101
        (some running)
        (ok loaded))
apply_locked-IsOrdered_example =
    apply_locked-IsOrdered all_run (λ g. (some true, compose_up ∷ [])) (some loaded.config) ctx 101
      (some running) (ok loaded)
