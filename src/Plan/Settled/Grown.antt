-- ===== src/Plan/Settled/Grown.antt =====
-- src/plan.rs at a disk that is to grow and to change its backup flag, both in one plan.
use pve_compose.Base.{
  ℕ, ◌≡◌, ◌≢◌, refl, sym, subst, ◌∙◌, false, Bool, Option, some, List, [], ◌∷◌, Text, All, inl, inr,
}
use mathlib.Core.Option.{some-injective}
use pve_compose.Size.{Size, Float}
use pve_compose.Size.RoundTrip.{IsExact}
use pve_compose.Spec.Volumes.{disk, Volume, dir}
use pve_compose.Pct.Mount.{Mount, is_bind}
use pve_compose.Pct.Mount.Written.{IsWritten}
use pve_compose.Pct.Mount.RoundTrip.{parse-print}
use pve_compose.Pct.Guest.{GuestConfig, mount_at}
use pve_compose.Plan.Build.{resize, set_backup, disk_step}
use pve_compose.Plan.Build.Converged.{IsEnough, IsSatisfied, Unneeded}
use pve_compose.Plan.Execute.{Call, call}
use pve_compose.Plan.Execute.Documented.{Documented, IsBelow, IsPrinted}
use pve_compose.Plan.Settled.Mounts.{IsNumbered, IsNumbered-at, stands_alone}
use pve_compose.Plan.Settled.Steps.{IsKept, changed}
use pve_compose.Plan.Settled.Runs.{run_ops}
use pve_compose.Plan.Settled.Volumes.{size_cases, backup_cases, rewritten}

same_kind : (m : Mount) (b : Bool) → is_bind (record m { backup = b }) ≡ is_bind m
unfolding is_bind
same_kind m b = refl

unsatisfied :
    (m : Mount) (v : Volume) (own : Option Text) (size : Size) (g' : GuestConfig)
    → is_bind m ≡ false
    → ¬ IsEnough m.size size
    → mount_at g' (dir v) ≡ some (record m { backup = v.backup })
    → ¬ IsSatisfied g' v (disk own size)
unsatisfied m v own size g' on_disk small there (n, e, unneeded) =
    elim (subst (Unneeded v size) (sym (some-injective _ n (sym there ∙ e))) unneeded) [
      | inl bound ↦ cc (sym on_disk ∙ (sym (same_kind m v.backup) ∙ bound))
      | inr (enough, _) ↦ small enough
    ]

module _ {fl : Float} {after : Call → GuestConfig → GuestConfig} (doc : Documented fl after) where
  module _ (exact : IsExact fl) (g : GuestConfig) (used : List ℕ) (next : ℕ) (v : Volume) where
    both_run :
        (m : Mount) (from size : Size)
        → IsKept used next g
        → mount_at g (dir v) ≡ some m
        → IsWritten m
        → IsBelow m.size size
        → IsPrinted size
        → mount_at
            (run_ops after g used
              (resize m.key (dir v) from size ∷ set_backup m v.backup ∷ [])
              (next, g)).1
            (dir v)
          ≡ some (record m { backup = v.backup })
    unfolding call mount_at
    both_run m from size kept there written below printed =
        let (before, later, cut, met, none_before, left, right) =
          stands_alone g.mounts (dir v) m kept.0 there in
        let (s, _, e) = doc.disk_resized g before later m size cut left right below printed in
        let (moved, found) =
          changed used (dir v) next g _ before later m (record m { size = some s }) kept cut met
            none_before refl refl e in
        let (before', later', cut', met', none_before', left', right') =
          stands_alone _ (dir v) (record m { size = some s }) moved.kept.0 found in
        let m' : Mount = record m { backup = v.backup } in
        let (j, key, _) =
          IsNumbered-at used next before' later' (record m { size = some s })
            (subst (All (IsNumbered used next)) cut' moved.kept.1) in
        (changed used (dir v) next _ _ before' later' (record m { size = some s }) m' moved.kept
          cut' met' none_before' refl refl
          (doc.mount_set _ before' later' (record m { size = some s }) m' m' j key cut' left' right'
            (parse-print fl exact m' (rewritten m v.backup written)))).1

    -- A disk that is to grow and to change its backup flag has, behind the calls for both, the flag
    -- asked for and the size from before: the mount line of the second call holds the size that was
    -- read before the first. The volume is not satisfied.
    pub disk_step-forgets :
        (m : Mount) (st : Text) (own : Option Text) (size : Size)
        → IsKept used next g
        → mount_at g (dir v) ≡ some m
        → is_bind m ≡ false
        → IsWritten m
        → IsPrinted size
        → ¬ IsEnough m.size size
        → m.backup ≢ v.backup
        → let g' = (run_ops after g used (disk_step v st size (some m)).ops (next, g)).1 in
          (mount_at g' (dir v) ≡ some (record m { backup = v.backup }))
          × ¬ IsSatisfied g' v (disk own size)
    unfolding disk_step
    disk_step-forgets m st own size kept there on_disk written printed small flag =
        rw on_disk (elim (size_cases g v m size) [
          | inl (enough, _) ↦ absurd (small enough)
          | inr (from, below, sized) ↦ elim (backup_cases v m) [
            | inl (same, _) ↦ absurd (flag same)
            | inr (_, set) ↦
                rw (sized, set)
                  (
                    both_run m from size kept there written below printed,
                    unsatisfied m v own size _ on_disk small
                        (both_run m from size kept there written below printed),
                  )
          ]
        ])
