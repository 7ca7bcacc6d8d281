-- ===== src/Plan/Settled/Again.antt =====
-- src/plan.rs planned again behind a run of its plan.
use pve_compose.Base.{
  ℕ, ◌≡◌, refl, sym, ap, subst, ◌∙◌, Bool, true, Option, none, some, List, [], ◌∷◌, ◌++◌, Text,
  text_eq, any, All, if◌then◌else◌, ok, err, >>=-eq-ok, ok-injective,
}
use pve_compose.Base.Dict.{Dict}
use pve_compose.Size.{Float}
use pve_compose.Size.RoundTrip.{IsExact}
use pve_compose.Config.{storage_for}
use pve_compose.Spec.Volumes.{Volume, dir}
use pve_compose.Pct.Guest.{GuestConfig, mount_at, has_tag, used_indexes, free_mp_index}
use pve_compose.Plan.Build.{
  Plan, Inputs, is_a_template, feature_ops, tag_ops, start_plan, volume_steps, build,
}
use pve_compose.Plan.Build.Features.{HasFeatures}
use pve_compose.Plan.Build.Converged.{HasTag, IsSatisfied, build-ops-eq-nil_iff}
use pve_compose.Plan.Build.Total.{build_total_iff}
use pve_compose.Plan.Execute.{Call, execute}
use pve_compose.Plan.Execute.Documented.{Documented, behind_all}
use pve_compose.Plan.Settled.Runs.{run_ops, run_ops-append, execute_from-run_ops}
use pve_compose.Plan.Settled.Loop.{volume_steps-IsLooped}
use pve_compose.Plan.Settled.Start.{IsReadable, numbers, start_run}

HasTag-same : (g h : GuestConfig) (t : Option Text) → h.tags ≡ g.tags → HasTag g t → HasTag h t
unfolding has_tag
HasTag-same g h none e there = tt
HasTag-same g h (some t) e there = ap (any (λ u. text_eq u t)) e ∙ there

unchanged :
    (g : GuestConfig) (m : Dict Text) (ts : List Text) (vs : List Volume)
    → All (λ v. mount_at (record g { features = m; tags = ts }) (dir v) ≡ mount_at g (dir v)) vs
unfolding mount_at
unchanged g m ts [] = tt
unchanged g m ts (v ∷ vs) = (refl, unchanged g m ts vs)

-- The guest is as the document asks, and is what it was.
abbrev IsAsAsked : Inputs → GuestConfig → Type 0
IsAsAsked i g' =
    (g'.is_template ≡ i.guest.is_template)
    × HasFeatures g'.features
    × HasTag g' i.tag
    × All (λ v. IsSatisfied g' v v.kind) i.volumes

-- The operations of a plan, by what they are for.
build_loops :
    (i : Inputs) (p : Plan)
    → build i ≡ ok p
    → (q : Plan) × (volume_steps i.guest (storage_for i.config i.node) (start_plan i) i.volumes
        ≡ ok q)
      × (q.ops ≡ p.ops)
unfolding build
build_loops i p h =
    let g = i.guest in
    let (_, _, h₁) = >>=-eq-ok (if g.is_template then err (is_a_template g.vmid) else ok tt) _ h in
    let (q, looped, last) =
      >>=-eq-ok (volume_steps g (storage_for i.config i.node) (start_plan i) i.volumes) _ h₁ in
    (q, looped, ap (λ (r : Plan). r.ops) (ok-injective last))

module _ {fl : Float} {after : Call → GuestConfig → GuestConfig} (doc : Documented fl after) where
  -- The guest behind the operations is as the document asks.
  settled :
      IsExact fl
      → (i : Inputs) (p : Plan) (next : ℕ) → build i ≡ ok p
      → IsReadable i
      → IsAsAsked i (run_ops after i.guest (used_indexes i.guest.mounts) p.ops (next, i.guest)).1
  settled exact i p next h readable =
      let g = i.guest in
      let used = used_indexes g.mounts in
      let (q, steps, same) = build_loops i p h in
      let (m, ts, ran, has, tagged) = start_run doc g used next i refl readable in
      let g₁ : GuestConfig = record g { features = m; tags = ts } in
      let (ops, e, looped) =
        volume_steps-IsLooped doc exact g used (storage_for i.config i.node) i.volumes
          (start_plan i) q next g₁ steps readable.dirs readable.steady
          (readable.keyed, numbers used next g.mounts (λ j there. there) readable.numbered)
          (unchanged g m ts i.volumes) in
      let reached : run_ops after g used p.ops (next, g) ≡ run_ops after g used ops (next, g₁) =
        ap (λ o. run_ops after g used o (next, g)) (sym same ∙ e)
        ∙ (run_ops-append after g used (feature_ops g.features ++ tag_ops g i.tag) ops (next, g)
            ∙ ap (run_ops after g used ops) ran) in
      subst (λ s. IsAsAsked i s.1) (sym reached)
        (
          looped.same_template,
          subst HasFeatures (sym looped.same_features) has,
          HasTag-same g₁ _ i.tag looped.same_tags tagged,
          looped.satisfied,
        )

-- Once the calls of a plan have all succeeded, as PVE documents them, the same document plans nothing
-- more.
pub build-again :
    {fl : Float} {after : Call → GuestConfig → GuestConfig}
    → Documented fl after
    → IsExact fl
    → (runs : List Call → Bool) (i : Inputs) (p : Plan) → build i ≡ ok p
    → IsReadable i
    → (execute runs i.guest p).0 ≡ true
    → (q : Plan) × (build (record i { guest = behind_all after i.guest (execute runs i.guest p).1 })
        ≡ ok q)
      × (q.ops ≡ [])
unfolding execute
build-again {after = after} doc exact runs i p h readable ran =
    let g = i.guest in
    let used = used_indexes g.mounts in
    let (cs, made, behind) =
      execute_from-run_ops after g used runs p.ops (free_mp_index g) g [] ran in
    let g' = (run_ops after g used p.ops (free_mp_index g, g)).1 in
    let (template, has, tagged, satisfied) = settled doc exact i p (free_mp_index g) h readable in
    let (no_template, stored) = (build_total_iff i).0 (p, h) in
    let (q, again) =
      (build_total_iff (record i { guest = g' })).1 (template ∙ no_template, stored) in
    rw (made, behind)
      (
        q,
        again,
        (build-ops-eq-nil_iff (record i { guest = g' }) q again).1 (has, tagged, satisfied),
      )
