-- ===== src/Verbs/Tests.antt =====
-- Runs of verbs, and the theorems there.
use pve_compose.Base.{◌≡◌, refl, true, false, [], ◌∷◌, codes, length, ltb, ok}
use pve_compose.Base.Calls.{run}
use pve_compose.Size.{gib}
use pve_compose.Cli.{pct, apply}
use pve_compose.Ops.New.{NewArgs, WrapperSpec}
use pve_compose.Verbs.{
  take_lock, drop_lock, require_running, load_guest, pct_half, pct_apply, run_verb,
}
use pve_compose.Verbs.Dispatch.{on_guest, dispatch}
use pve_compose.Verbs.Guarded.{no_guard, IsGuarded}
use pve_compose.Verbs.Guarded.Programs.{dispatch-IsGuarded}

abbrev pub wrapper : NewArgs → WrapperSpec
wrapper a = record {
  vmid = 105;
  hostname = codes "web";
  template = codes "local:vztmpl/debian.tar.zst";
  rootfs_storage = codes "tank";
  rootfs_size = record { bytes = gib };
  unprivileged = true;
  cores = 2;
  memory = 512;
  net0 = codes "name=eth0";
  features = codes "nesting=1,keyctl=1";
  tags = [];
  onboot = true;
}

-- The wrapper's half fails, and the lock is dropped.
failing : run_verb (λ es. ltb (length es) 4) (pct_apply 101) ≡ (
  false,
  take_lock 101 ∷ require_running 101 ∷ load_guest 101 ∷ pct_half 101 ∷ drop_lock 101 ∷ [],
)
unfolding run_verb run pct_apply
failing = refl

pub pct_apply_101 :
    dispatch false wrapper (pct (apply (record { vmid = 101; no_up = false })))
    ≡ ok (on_guest (pct_apply 101))
unfolding dispatch
pct_apply_101 = refl

dispatch-IsGuarded_example :
    IsGuarded no_guard (run_verb (λ es. ltb (length es) 4) (pct_apply 101)).1
dispatch-IsGuarded_example =
    dispatch-IsGuarded false wrapper (λ es. ltb (length es) 4)
      (pct (apply (record { vmid = 101; no_up = false }))) (pct_apply 101) pct_apply_101
