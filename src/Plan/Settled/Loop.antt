-- ===== src/Plan/Settled/Loop.antt =====
-- What src/plan.rs runs for all volumes leaves each of them satisfied.
use pve_compose.Base.{
  ℕ, ◌≡◌, refl, sym, ap, subst, ◌∙◌, false, Option, List, [], ◌∷◌, ◌++◌, append_assoc, append-nil,
  Text, text_eq, All, All-map, ok, >>=-eq-ok, ok-injective,
}
use pve_compose.Size.{Float}
use pve_compose.Size.RoundTrip.{IsExact}
use pve_compose.Spec.Volumes.{Kind, disk, bind, plain, Volume, dir}
use pve_compose.Pct.Guest.{GuestConfig, mount_at}
use pve_compose.Plan.Build.{Op, Plan, plan_of, volume_step, volume_steps}
use pve_compose.Plan.Build.Converged.{IsSatisfied}
use pve_compose.Plan.Execute.{Call}
use pve_compose.Plan.Execute.Documented.{Documented}
use pve_compose.Plan.Settled.Steps.{IsKept}
use pve_compose.Plan.Settled.Runs.{run_ops, run_ops-append}
use pve_compose.Plan.Settled.Volumes.{IsSteady, volume_step-Settles}

-- No two volumes have the same directory.
abbrev pub HaveOwnDirs : List Volume → Type 0
HaveOwnDirs [] = Unit
HaveOwnDirs (v ∷ vs) =
    All (λ w. (text_eq (dir v) (dir w) ≡ false) × (text_eq (dir w) (dir v) ≡ false)) vs
    × HaveOwnDirs vs

-- The state behind the operations of all volumes, from the one before them.
pub record IsLooped (used : List ℕ) (vs : List Volume) (g : GuestConfig) (next' : ℕ)
    (g' : GuestConfig) : Type 0 where
  pub kept : IsKept used next' g'
  pub same_features : g'.features ≡ g.features
  pub same_tags : g'.tags ≡ g.tags
  pub same_template : g'.is_template ≡ g.is_template
  pub others : (q : Text) → All (λ v. text_eq (dir v) q ≡ false) vs → mount_at g' q ≡ mount_at g q
  pub satisfied : All (λ v. IsSatisfied g' v v.kind) vs

IsSatisfied-kept :
    (g g' : GuestConfig) (v : Volume) (kind : Kind)
    → mount_at g' (dir v) ≡ mount_at g (dir v)
    → IsSatisfied g v kind
    → IsSatisfied g' v kind
IsSatisfied-kept g g' v plain e h = tt
IsSatisfied-kept g g' v (bind path) e h = λ n. h (sym e ∙ n)
IsSatisfied-kept g g' v (disk own size) e (m, there, s) = (m, e ∙ there, s)

module _ {fl : Float} {after : Call → GuestConfig → GuestConfig} (doc : Documented fl after) where
  module _ (exact : IsExact fl) (g₀ : GuestConfig) (used : List ℕ) (default : Option Text) where
    pub volume_steps-IsLooped :
        (vs : List Volume) (p q : Plan) (next : ℕ) (g : GuestConfig)
        → volume_steps g₀ default p vs ≡ ok q
        → HaveOwnDirs vs
        → All (λ v. IsSteady g₀ v v.kind) vs
        → IsKept used next g
        → All (λ v. mount_at g (dir v) ≡ mount_at g₀ (dir v)) vs
        → (ops : List Op) × (q.ops ≡ p.ops ++ ops)
          × IsLooped used vs g
              (run_ops after g₀ used ops (next, g)).0
              (run_ops after g₀ used ops (next, g)).1
    unfolding volume_steps
    volume_steps-IsLooped [] p q next g h own steady kept same = (
      [],
      ap (λ (r : Plan). r.ops) (sym (ok-injective h)) ∙ sym (append-nil p.ops),
      record {
        kept = kept;
        same_features = refl;
        same_tags = refl;
        same_template = refl;
        others = λ path _. refl;
        satisfied = tt;
      },
    )
    volume_steps-IsLooped (v ∷ vs) p q next g h (own, owns) (steady, steadies) kept (same, sames) =
        let (step, made, rest) = >>=-eq-ok (volume_step g₀ default v v.kind) _ h in
        let (moved, satisfied) =
          volume_step-Settles doc exact g₀ used v next g kept same default v.kind step made
            steady in
        let (next₁, g₁) = run_ops after g₀ used step.ops (next, g) in
        let (ops, e, looped) =
          volume_steps-IsLooped vs (plan_of (p.ops ++ step.ops) (p.notes ++ step.notes)) q next₁ g₁
            rest owns steadies moved.kept (still g₁ moved.others own sames) in
        (
          step.ops ++ ops,
          e ∙ append_assoc p.ops step.ops ops,
          subst (λ s. IsLooped used (v ∷ vs) g s.0 s.1)
              (sym (run_ops-append after g₀ used step.ops ops (next, g)))
              (record {
                kept = looped.kept;
                same_features = looped.same_features ∙ moved.same_features;
                same_tags = looped.same_tags ∙ moved.same_tags;
                same_template = looped.same_template ∙ moved.same_template;
                others = λ path (here, later). looped.others path later ∙ moved.others path here;
                satisfied = (
                  IsSatisfied-kept g₁ _ v v.kind
                      (looped.others (dir v) (All-map (λ w k. k.1) vs own)) satisfied,
                  looped.satisfied,
                );
              }),
        )
      where
        still :
            (g₁ : GuestConfig)
            → ((path : Text) → text_eq (dir v) path ≡ false → mount_at g₁ path ≡ mount_at g path)
            → All (λ w. (text_eq (dir v) (dir w) ≡ false) × (text_eq (dir w) (dir v) ≡ false)) vs
            → All (λ w. mount_at g (dir w) ≡ mount_at g₀ (dir w)) vs
            → All (λ w. mount_at g₁ (dir w) ≡ mount_at g₀ (dir w)) vs
        still g₁ others own sames = both vs own sames
          where
            both :
                (ws : List Volume)
                → All
                    (λ w. (text_eq (dir v) (dir w) ≡ false) × (text_eq (dir w) (dir v) ≡ false))
                    ws
                → All (λ w. mount_at g (dir w) ≡ mount_at g₀ (dir w)) ws
                → All (λ w. mount_at g₁ (dir w) ≡ mount_at g₀ (dir w)) ws
            both [] _ _ = tt
            both (w ∷ ws) ((differ, _), differs) (e, es) =
                (others (dir w) differ ∙ e, both ws differs es)
