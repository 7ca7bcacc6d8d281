-- ===== src/Plan/Settled/Tests.antt =====
-- A plan that is run and planned again, at a concrete guest.
use mathlib.Core.Option.{some-injective}
use native.Mathlib.Omega.{arith}
use pve_compose.Base.{
  ◌*◌, ◌≡◌, ◌≢◌, ◌⊎◌, ap, subst, sym, ◌∙◌, refl, true, false, none, some, [], ◌∷◌, codes, ok, inl,
  inr, trim_graphic,
}
use pve_compose.Size.{gib}
use pve_compose.Size.Tests.{whole, whole-IsExact}
use pve_compose.Spec.Volumes.{Volume, disk, dir}
use pve_compose.Pct.Mount.{Mount, is_bind}
use pve_compose.Pct.Mount.Written.{IsWritten}
use pve_compose.Pct.Guest.{mount_at, used_indexes}
use pve_compose.Plan.Build.{Plan, disk_step, build}
use pve_compose.Plan.Build.Tests.{mount, guest, planned, inputs, db, grown}
use pve_compose.Plan.Build.Converged.{IsEnough, IsSatisfied}
use pve_compose.Plan.Execute.{execute}
use pve_compose.Plan.Execute.Tests.{all_run, calls}
use pve_compose.Plan.Execute.Documented.{mp_key, behind_all}
use pve_compose.Plan.Settled.Start.{IsReadable}
use pve_compose.Plan.Settled.Example.{after}
use pve_compose.Plan.Settled.Example.Documents.{after-Documented}
use pve_compose.Plan.Settled.Runs.{run_ops}
use pve_compose.Plan.Settled.Grown.{disk_step-forgets}
use pve_compose.Plan.Settled.Again.{build-again}

mount-IsWritten : IsWritten mount
unfolding pve_compose.Base.trim pve_compose.Base.strip_prefix pve_compose.Base.text_dec
    pve_compose.Base.Dict.text_lt
mount-IsWritten = record {
  volume_there = (λ e. cc e);
  volume_lacks = omega arith;
  volume_trim = refl;
  volume_bare = refl;
  mp_lacks = omega arith;
  size_written = omega arith;
  others_written = tt;
  others_sorted = tt;
}

found : mount_at guest (dir db) ≡ some mount
unfolding mount_at dir pve_compose.Base.text_dec
found = refl

steady :
    (m : Mount)
    → mount_at guest (dir db) ≡ some m
    → IsWritten m × (IsEnough m.size (record { bytes = 20 * gib }) ⊎ (m.backup ≡ true))
steady m there =
    subst (λ n. IsWritten n × (IsEnough n.size (record { bytes = 20 * gib }) ⊎ (n.backup ≡ true)))
      (some-injective mount m (sym found ∙ there)) (mount-IsWritten, inr refl)

ran : (execute all_run guest planned).0 ≡ true
ran = ap (λ r. r.0) calls

readable : IsReadable inputs
unfolding used_indexes pve_compose.Pct.Mount.index pve_compose.Base.strip_prefix
    pve_compose.Base.Decimal.read pve_compose.Base.Decimal.show pve_compose.Base.trim
    pve_compose.Base.text_dec dir
readable = record {
  keyed = (tt, tt);
  numbered = ((0, refl, refl), tt);
  features = ((ground arith, (ground arith, refl, refl)), tt);
  tags = ((ground arith, refl, refl), tt);
  tag = (ground arith, refl, refl);
  dirs = (((refl, refl), tt), (tt, tt));
  steady = ((ground arith, ground arith, steady), ((ground arith, ground arith), tt));
}

build-again_example :
    (q : Plan) × (build
        (record inputs { guest = behind_all (after whole) guest (execute all_run guest planned).1 })
      ≡ ok q)
    × (q.ops ≡ [])
build-again_example =
    build-again (after-Documented whole) whole-IsExact all_run inputs planned grown readable ran

mp0 : mount.key ≡ mp_key 0
unfolding pve_compose.Base.Decimal.show
mp0 = refl

on_disk : is_bind mount ≡ false
unfolding is_bind pve_compose.Base.strip_prefix pve_compose.Base.text_dec
on_disk = refl

-- The volume of the mount, when it is no longer backed up.
abbrev cold : Volume
cold = record db { backup = false }

cold_found : mount_at guest (dir cold) ≡ some mount
unfolding mount_at dir pve_compose.Base.text_dec
cold_found = refl

disk_step-forgets_example :
    let g' =
      (run_ops
        (after whole)
        guest
        (0 ∷ [])
        (disk_step cold (codes "tank") (record { bytes = 20 * gib }) (some mount)).ops
        (1, guest)).1 in
    (mount_at g' (dir cold) ≡ some (record mount { backup = false }))
    × ¬ IsSatisfied g' cold (disk none (record { bytes = 20 * gib }))
disk_step-forgets_example =
    disk_step-forgets (after-Documented whole) whole-IsExact guest (0 ∷ []) 1 cold mount
      (codes "tank") none (record { bytes = 20 * gib }) ((tt, tt), ((0, mp0, inl refl), tt))
      cold_found on_disk mount-IsWritten (omega arith) (λ h. absurd (omega (arith, h))) (λ e. cc e)
