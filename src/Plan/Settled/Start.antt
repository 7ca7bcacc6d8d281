-- ===== src/Plan/Settled/Start.antt =====
-- The features and the tag that src/plan.rs sets in front of the volumes.
use native.Mathlib.Omega.{arith}
use pve_compose.Base.{
  ℕ, ◌≡◌, refl, ap, subst, ◌∙◌, inl, inr, true, Option, none, some, List, [], ◌∷◌, ◌++◌, Text,
  codes, All, Bool-cases,
}
use pve_compose.Base.Dict.{Dict}
use pve_compose.Size.{Float}
use pve_compose.Pct.Mount.{Mount, index}
use pve_compose.Pct.Guest.{GuestConfig, has_tag, used_indexes, contains_index}
use pve_compose.Pct.Guest.Keys.{IsKeyed}
use pve_compose.Plan.Build.{
  Inputs, wanted_features, features_eq, features_text, feature_ops, tag_ops,
}
use pve_compose.Plan.Build.Features.{HasFeatures, wanted_features-HasFeatures, features_eq_sound}
use pve_compose.Plan.Build.Converged.{HasTag}
use pve_compose.Plan.Execute.{Call, call}
use pve_compose.Plan.Execute.Documented.{Documented, mp_key, features_of}
use pve_compose.Plan.Settled.Texts.{
  IsItem, IsFeature, tags_of-tags_arg, has_tag-append, wanted_features-IsFeature,
  features_of-features_text,
}
use pve_compose.Plan.Settled.Mounts.{IsNumbered}
use pve_compose.Plan.Settled.Runs.{run_ops, run_ops-append}
use pve_compose.Plan.Settled.Volumes.{IsSteady}
use pve_compose.Plan.Settled.Loop.{HaveOwnDirs}

abbrev pub IsTagItem : Option Text → Type 0
IsTagItem none = Unit
IsTagItem (some t) = IsItem b';' t

abbrev pub IsMpN : Mount → Type 0
IsMpN m = (j : ℕ) × (m.key ≡ mp_key j) × (index m ≡ some j)

-- The wrapper's config is as PVE keeps it: mounts with a key `mpN` each, features and tags that are
-- read back as they are written. The volumes have a directory each.
pub record IsReadable (i : Inputs) : Type 0 where
  pub keyed : IsKeyed i.guest.mounts
  pub numbered : All IsMpN i.guest.mounts
  pub features : All IsFeature i.guest.features
  pub tags : All (IsItem b';') i.guest.tags
  pub tag : IsTagItem i.tag
  pub dirs : HaveOwnDirs i.volumes
  pub steady : All (λ v. IsSteady i.guest v v.kind) i.volumes

pub numbers :
    (used : List ℕ) (next : ℕ) (ms : List Mount)
    → ((j : ℕ) → contains_index (used_indexes ms) j ≡ true → contains_index used j ≡ true)
    → All IsMpN ms
    → All (IsNumbered used next) ms
unfolding used_indexes
numbers used next [] wider _ = tt
numbers used next (m ∷ ms) wider ((j, key, e), h) = (
  (j, key, inl (wider j (rw e (ground arith)))),
  numbers used next ms (λ k there. wider k (rw e (ground arith))) h,
)

module _ {fl : Float} {after : Call → GuestConfig → GuestConfig} (doc : Documented fl after) where
  module _ (g : GuestConfig) (used : List ℕ) (next : ℕ) where
    features_run :
        All IsFeature g.features
        → (m : Dict Text) × (run_ops after g used (feature_ops g.features) (next, g)
            ≡ (next, record g { features = m }))
          × HasFeatures m
    unfolding feature_ops call
    features_run clean =
        let want = wanted_features g.features in
        let (nesting, keyctl) = wanted_features-HasFeatures g.features in
        let written = wanted_features-IsFeature g.features clean in
        elim (Bool-cases (features_eq want g.features)) [
          | inl same ↦ (
            g.features,
            rw same refl,
            subst HasFeatures (features_eq_sound want g.features same) (nesting, keyctl),
          )
          | inr differ ↦ (
            features_of (features_text want),
            rw differ (ap (λ h. (next, h)) (doc.features_set (features_text want) g)),
            (
              features_of-features_text (codes "nesting") want written nesting,
              features_of-features_text (codes "keyctl") want written keyctl,
            ),
          )
        ]

    tags_run :
        (m : Dict Text) (t : Option Text)
        → All (IsItem b';') g.tags
        → IsTagItem t
        → (ts : List Text) × (run_ops after g used (tag_ops g t) (next, record g { features = m })
            ≡ (next, record g { features = m; tags = ts }))
          × HasTag (record g { features = m; tags = ts }) t
    unfolding tag_ops call has_tag
    tags_run m none hs h = (g.tags, refl, tt)
    tags_run m (some t) hs h = elim (Bool-cases (has_tag g t)) [
      | inl there ↦ (g.tags, rw there refl, there)
      | inr missing ↦ (
        g.tags ++ t ∷ [],
        rw missing (
            ap (λ c. (next, c))
              (doc.tags_set _ (record g { features = m })
                ∙ ap (λ ts. record g { features = m; tags = ts }) (tags_of-tags_arg g t hs h))),
        has_tag-append g t,
      )
    ]

    -- The two operations that stand in front of those for the volumes.
    pub start_run :
        (i : Inputs)
        → i.guest ≡ g
        → IsReadable i
        → (m : Dict Text) × (ts : List Text) × (run_ops after g used
              (feature_ops g.features ++ tag_ops g i.tag)
              (next, g)
            ≡ (next, record g { features = m; tags = ts }))
          × HasFeatures m
          × HasTag (record g { features = m; tags = ts }) i.tag
    start_run i e readable =
        let (m, ran, has) =
          features_run (subst (λ h. All IsFeature h.features) e readable.features) in
        let (ts, also, tagged) =
          tags_run m i.tag (subst (λ h. All (IsItem b';') h.tags) e readable.tags) readable.tag in
        (
          m,
          ts,
          run_ops-append after g used (feature_ops g.features) (tag_ops g i.tag) (next, g)
              ∙ (ap (run_ops after g used (tag_ops g i.tag)) ran ∙ also),
          has,
          tagged,
        )
