-- ===== src/Plan/Settled/Volumes.antt =====
-- What src/plan.rs runs for one volume leaves the wrapper as the volume asks.
use mathlib.Core.List.{cons-ne-nil}
use mathlib.Core.Option.{none-ne-some}
use native.Mathlib.Omega.{arith}
use pve_compose.Base.{
  ℕ, ◌+◌, ◌≡◌, ◌≢◌, ◌⊎◌, inl, inr, refl, sym, subst, ◌∙◌, Bool, Option, none, some, List, [], ◌∷◌,
  ◌++◌, Text, All, Lacks, Bool-cases, Option-cases, leb, ok, ok-injective,
}
use pve_compose.Size.{Size, Float, mib}
use pve_compose.Size.RoundTrip.{IsExact}
use pve_compose.Spec.Volumes.{Kind, disk, bind, plain, Volume, dir}
use pve_compose.Pct.Mount.{Mount, is_bind}
use pve_compose.Pct.Mount.Written.{comma, IsWritten}
use pve_compose.Pct.Mount.RoundTrip.{parse-print}
use pve_compose.Pct.Guest.{GuestConfig, mount_at}
use pve_compose.Plan.Build.{
  Op, create_disk, create_bind, resize, set_backup, Plan, bind_step, size_plan, backup_ops,
  size_or_zero, bool_eq, disk_step, or_default, disk_volume, volume_step,
}
use pve_compose.Plan.Build.Converged.{
  IsEnough, IsSatisfied, plain_step_iff, bind_step_iff, size_plan_iff, bool_eq_sound,
}
use pve_compose.Plan.Build.Justified.{bool_eq_ne}
use pve_compose.Plan.Execute.{Call, call, take_index}
use pve_compose.Plan.Execute.Documented.{Documented, IsBelow, IsPrinted}
use pve_compose.Plan.Execute.Indexes.{take_index-IsNextFree}
use pve_compose.Plan.Settled.Mounts.{IsNumbered, IsNumbered-at, stands_alone, numbered-IsKeyFree}
use pve_compose.Plan.Settled.Steps.{IsKept, IsMoved, unmoved, added, changed}
use pve_compose.Plan.Settled.Runs.{run_ops}

-- The directory and the path can stand in a mount line. A disk that is there can be written back,
-- and does not want both a new size and a new backup flag.
abbrev pub IsSteady : GuestConfig → Volume → Kind → Type 0
IsSteady g v plain = Unit
IsSteady g v (bind path) = Lacks comma (dir v) × Lacks comma path
IsSteady g v (disk own size) =
    Lacks comma (dir v)
    × IsPrinted size
    × ((m : Mount)
        → mount_at g (dir v) ≡ some m
        → IsWritten m × (IsEnough m.size size ⊎ (m.backup ≡ v.backup)))

pub rewritten : (m : Mount) (b : Bool) → IsWritten m → IsWritten (record m { backup = b })
rewritten m b w = record {
  volume_there = w.volume_there;
  volume_lacks = w.volume_lacks;
  volume_trim = w.volume_trim;
  volume_bare = w.volume_bare;
  mp_lacks = w.mp_lacks;
  size_written = w.size_written;
  others_written = w.others_written;
  others_sorted = w.others_sorted;
}

-- A mounted disk is large enough, or grows.
pub size_cases :
    (g₀ : GuestConfig) (v : Volume) (m : Mount) (size : Size)
    → (IsEnough m.size size × ((size_plan v m size).ops ≡ []))
      ⊎ ((from : Size) × IsBelow m.size size
          × ((size_plan v m size).ops ≡ resize m.key (dir v) from size ∷ []))
unfolding size_plan
size_cases g₀ v m size = elim (Option-cases m.size) [
  | inl missing ↦ simp (missing, size_plan) (inr (size_or_zero none, tt, refl))
  | inr (h, has) ↦ elim (Bool-cases (leb size.bytes (h.bytes + mib))) [
    | inl enough ↦
        inl (rw has (ground arith), (size_plan_iff g₀ v m size).1 (rw has (ground arith)))
    | inr less ↦ simp (has, less, size_plan) (inr (h, ground arith, refl))
  ]
]

-- Its backup flag is the volume's, or is set.
pub backup_cases :
    (v : Volume) (m : Mount)
    → ((m.backup ≡ v.backup) × (backup_ops v m ≡ []))
      ⊎ ((m.backup ≢ v.backup) × (backup_ops v m ≡ set_backup m v.backup ∷ []))
unfolding backup_ops
backup_cases v m = elim (Bool-cases (bool_eq m.backup v.backup)) [
  | inl same ↦ rw same (inl (bool_eq_sound m.backup v.backup same, refl))
  | inr differ ↦ rw differ (inr (bool_eq_ne m.backup v.backup differ, refl))
]

module _ {fl : Float} {after : Call → GuestConfig → GuestConfig} (doc : Documented fl after) where
  module _ (exact : IsExact fl) (g₀ : GuestConfig) (used : List ℕ) (v : Volume) where
    -- The operations leave the volume satisfied and all else as it was.
    abbrev pub Settles : List Op → Kind → ℕ → GuestConfig → Type 0
    Settles ops kind next g =
        let (next', g') = run_ops after g₀ used ops (next, g) in
        IsMoved used (dir v) next g next' g' × IsSatisfied g' v kind

    module _ (next : ℕ) (g : GuestConfig) (kept : IsKept used next g) where
      bind_created :
          (path : Text)
          → mount_at g (dir v) ≡ none
          → IsSteady g₀ v (bind path)
          → Settles (create_bind (dir v) path ∷ []) (bind path) next g
      unfolding call
      bind_created path nothing (placed, written) =
          let free = take_index-IsNextFree used next in
          let i = take_index used next in
          let fresh = numbered-IsKeyFree used next i g.mounts free kept.1 in
          let (m, key, mp, adds) = doc.bind_made g i (dir v) path fresh placed written in
          let (moved, there) =
            added used (dir v) next i g _ m kept free.0 (rw key fresh) key mp nothing adds in
          (moved, λ e. none-ne-some m (sym e ∙ there))

      disk_created :
          (st : Text) (own : Option Text) (size : Size)
          → mount_at g (dir v) ≡ none
          → Lacks comma (dir v)
          → IsPrinted size
          → Settles (create_disk (dir v) st size v.backup ∷ []) (disk own size) next g
      unfolding call
      disk_created st own size nothing placed printed =
          let free = take_index-IsNextFree used next in
          let i = take_index used next in
          let fresh = numbered-IsKeyFree used next i g.mounts free kept.1 in
          let (m, key, mp, enough, backup, adds) =
            doc.disk_made g i (dir v) st size v.backup fresh placed printed in
          let (moved, there) =
            added used (dir v) next i g _ m kept free.0 (rw key fresh) key mp nothing adds in
          (moved, (m, there, inr (enough, backup)))

      -- A disk that is mounted at the directory grows, or takes the backup flag.
      module _ (m : Mount) (there : mount_at g (dir v) ≡ some m) where
        resized :
            (from : Size) (own : Option Text) (size : Size)
            → IsBelow m.size size
            → IsPrinted size
            → m.backup ≡ v.backup
            → Settles (resize m.key (dir v) from size ∷ []) (disk own size) next g
        unfolding call mount_at
        resized from own size below printed backup =
            let (before, later, cut, met, none_before, left, right) =
              stands_alone g.mounts (dir v) m kept.0 there in
            let (s, enough, e) =
              doc.disk_resized g before later m size cut left right below printed in
            let (moved, found) =
              changed used (dir v) next g _ before later m (record m { size = some s }) kept cut met
                none_before refl refl e in
            (moved, (record m { size = some s }, found, inr (enough, backup)))

        flagged :
            (own : Option Text) (size : Size)
            → IsWritten m
            → IsEnough m.size size
            → Settles (set_backup m v.backup ∷ []) (disk own size) next g
        unfolding call mount_at
        flagged own size written enough =
            let (before, later, cut, met, none_before, left, right) =
              stands_alone g.mounts (dir v) m kept.0 there in
            let m' : Mount = record m { backup = v.backup } in
            let (j, key, _) =
              IsNumbered-at used next before later m
                (subst (All (IsNumbered used next)) cut kept.1) in
            let e =
              doc.mount_set g before later m m' m' j key cut left right
                (parse-print fl exact m' (rewritten m v.backup written)) in
            let (moved, found) =
              changed used (dir v) next g _ before later m m' kept cut met none_before refl refl
                e in
            (moved, (m', found, inr (enough, refl)))

      -- The guest that was planned for has the same at the directory.
      module _ (same : mount_at g (dir v) ≡ mount_at g₀ (dir v)) where
        bind_settled :
            (path : Text)
            → IsSteady g₀ v (bind path)
            → Settles (bind_step v path (mount_at g₀ (dir v))).ops (bind path) next g
        unfolding bind_step
        bind_settled path steady = elim (Option-cases (mount_at g₀ (dir v))) [
          | inl nothing ↦ rw nothing (bind_created path (same ∙ nothing) steady)
          | inr (m, there) ↦
              subst (λ ops. Settles ops (bind path) next g)
                (sym (
                  (bind_step_iff g₀ v path (mount_at g₀ (dir v))).1
                    (λ e. none-ne-some m (sym e ∙ there))))
                (unmoved used (dir v) next g kept, λ e. none-ne-some m (sym e ∙ (same ∙ there)))
        ]

        disk_kept :
            (own : Option Text) (size : Size) (m : Mount)
            → IsPrinted size
            → mount_at g₀ (dir v) ≡ some m
            → IsWritten m × (IsEnough m.size size ⊎ (m.backup ≡ v.backup))
            → Settles ((size_plan v m size).ops ++ backup_ops v m) (disk own size) next g
        disk_kept own size m printed there (written, one) = elim (size_cases g₀ v m size) [
          | inl (enough, none_sized) ↦ elim (backup_cases v m) [
            | inl (flag, none_set) ↦
                rw (none_sized, none_set)
                  (unmoved used (dir v) next g kept, (m, same ∙ there, inr (enough, flag)))
            | inr (differ, set) ↦
                rw (none_sized, set) (flagged m (same ∙ there) own size written enough)
          ]
          | inr (from, below, sized) ↦ elim (backup_cases v m) [
            | inl (flag, none_set) ↦
                rw (sized, none_set) (resized m (same ∙ there) from own size below printed flag)
            | inr (differ, set) ↦ absurd (elim one [
              | inl enough ↦ cons-ne-nil _ _ (sym sized ∙ (size_plan_iff g₀ v m size).1 enough)
              | inr flag ↦ differ flag
            ])
          ]
        ]

        disk_settled :
            (own : Option Text) (size : Size) (st : Text)
            → IsSteady g₀ v (disk own size)
            → Settles (disk_step v st size (mount_at g₀ (dir v))).ops (disk own size) next g
        unfolding disk_step
        disk_settled own size st (placed, printed, steady) =
            elim (Option-cases (mount_at g₀ (dir v))) [
              | inl nothing ↦ rw nothing (disk_created st own size (same ∙ nothing) placed printed)
              | inr (m, there) ↦ elim (Bool-cases (is_bind m)) [
                | inl bound ↦
                    rw (there, bound)
                      (unmoved used (dir v) next g kept, (m, same ∙ there, inl bound))
                | inr on_disk ↦
                    rw (there, on_disk) (disk_kept own size m printed there (steady m there))
              ]
            ]

        -- What one volume adds to the plan, run in a state of the run.
        pub volume_step-Settles :
            (default : Option Text) (kind : Kind) (p : Plan)
            → volume_step g₀ default v kind ≡ ok p
            → IsSteady g₀ v kind
            → Settles p.ops kind next g
        unfolding volume_step disk_volume
        volume_step-Settles default plain p h steady =
            subst (λ (q : Plan). Settles q.ops plain next g) (ok-injective h)
              (subst (λ ops. Settles ops plain next g)
                (sym ((plain_step_iff g₀ v (mount_at g₀ (dir v))).1 tt))
                (unmoved used (dir v) next g kept, tt))
        volume_step-Settles default (bind path) p h steady =
            subst (λ (q : Plan). Settles q.ops (bind path) next g) (ok-injective h)
              (bind_settled path steady)
        volume_step-Settles default (disk own size) p h steady =
            elim (Option-cases (or_default own default)) [
              | inl missing ↦ absurd (cc (rw (missing, disk_volume) at h))
              | inr (st, found) ↦
                  subst (λ (q : Plan). Settles q.ops (disk own size) next g)
                    (ok-injective (rw (found, disk_volume) at h)) (disk_settled own size st steady)
            ]
