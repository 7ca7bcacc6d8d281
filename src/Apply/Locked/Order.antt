-- ===== src/Apply/Locked/Order.antt =====
-- The order of the two halves of `apply_locked` in src/ops/apply.rs.
use pve_compose.Base.{
  ℕ, zero, suc, ◌≡◌, refl, ◌⊎◌, inl, inr, Bool, Option, none, some, List, [], Result, ok, err,
}
use pve_compose.Pct.Guest.{GuestConfig}
use pve_compose.Ops.{Ctx, Guest, LoadError}
use pve_compose.Ops.Selector.{Status, running, stopped, other, require_running}
use pve_compose.Plan.Execute.{Call}
use pve_compose.Apply.Docker.{Action}
use pve_compose.Apply.Wrapper.{ApplyError, pct_apply_guest}
use pve_compose.Apply.Locked.{
  Outcome, pct_step, loaded_step, running_step, stopped_with, apply_locked,
}

module _ (runs : List Call → Bool) (docker : Guest → Option Bool × List Action)
    (config' : Option GuestConfig) (ctx : Ctx) where
  -- Nothing is done in the guest, or the half for the wrapper has succeeded before.
  abbrev pub IsBehindWrapper : Guest → List Action → Type 0
  IsBehindWrapper g actions = (actions ≡ []) ⊎ ((n : ℕ) × ((pct_apply_guest runs ctx g).0 ≡ ok n))

  -- Nothing is done at all, or the guest runs and its document was loaded.
  abbrev pub IsOrdered : (status : Option Status) → Result LoadError Guest → Outcome → Type 0
  IsOrdered status loaded o =
      ((o.calls ≡ []) × (o.actions ≡ []))
      ⊎ ((status ≡ some running) × ((g : Guest) × (loaded ≡ ok g) × IsBehindWrapper g o.actions))

  pct_step-IsBehindWrapper :
      (g : Guest) (r : Result ApplyError ℕ) (calls : List Call)
      → (pct_apply_guest runs ctx g).0 ≡ r
      → IsBehindWrapper g (pct_step runs docker config' g (r, calls)).actions
  unfolding pct_step stopped_with
  pct_step-IsBehindWrapper g (err e) calls h = inl refl
  pct_step-IsBehindWrapper g (ok zero) calls h = inr (zero, h)
  pct_step-IsBehindWrapper g (ok (suc n)) calls h = inr (suc n, h)

  -- A guest that does not run is not touched, neither its wrapper nor what is inside; and nothing is
  -- done inside a guest before the half for its wrapper has succeeded.
  pub apply_locked-IsOrdered :
      (vmid : ℕ) (status : Option Status) (loaded : Result LoadError Guest)
      → IsOrdered status loaded (apply_locked runs docker config' ctx vmid status loaded)
  unfolding apply_locked loaded_step running_step stopped_with require_running
  apply_locked-IsOrdered vmid none loaded = inl (refl, refl)
  apply_locked-IsOrdered vmid (some stopped) loaded = inl (refl, refl)
  apply_locked-IsOrdered vmid (some other) loaded = inl (refl, refl)
  apply_locked-IsOrdered vmid (some running) (err e) = inl (refl, refl)
  apply_locked-IsOrdered vmid (some running) (ok g) = inr (
    refl,
    (
      g,
      refl,
      pct_step-IsBehindWrapper g (pct_apply_guest runs ctx g).0 (pct_apply_guest runs ctx g).1 refl,
    ),
  )
