-- ===== src/Plan/Build/Features.antt =====
-- The features that src/plan.rs asks for.
use mathlib.Core.List.{cons-ne-nil}
use mathlib.Core.Option.{none-ne-some}
use native.Mathlib.Omega.{arith}
use pve_compose.Base.{
  ◌≡◌, ◌≢◌, inl, inr, ◌↔◌, refl, sym, ◌∙◌, subst, ap, true, false, none, some, [], ◌∷◌, Text, codes,
  text_eq, text_eq_sound, text_eq_refl, text_dec, Bool-cases, Option-cases,
}
use pve_compose.Base.Dict.{Dict, lookup, or_insert, lookup-or_insert, or_insert_present}
use pve_compose.Plan.Build.{wanted_features, features_eq, feature_ops}

pub features_eq_sound : (m n : Dict Text) → features_eq m n ≡ true → m ≡ n
unfolding features_eq
features_eq_sound [] [] h = refl
features_eq_sound [] (_ ∷ _) h = cc h
features_eq_sound (_ ∷ _) [] h = cc h
features_eq_sound ((k, v) ∷ m) ((j, w) ∷ n) h = ground (arith, features_eq_sound m n)

features_eq_refl : (m : Dict Text) → features_eq m m ≡ true
unfolding features_eq
features_eq_refl [] = refl
features_eq_refl ((k, v) ∷ m) = rw (text_eq_refl k, text_eq_refl v) (features_eq_refl m)

-- The features that docker needs are both set, whatever to.
abbrev pub HasFeatures : Dict Text → Type 0
HasFeatures m = (lookup (codes "nesting") m ≢ none) × (lookup (codes "keyctl") m ≢ none)

two_names : text_eq (codes "nesting") (codes "keyctl") ≡ false
unfolding text_dec
two_names = refl

lookup-or_insert_self : (k v : Text) (m : Dict Text) → lookup k (or_insert k v m) ≢ none
lookup-or_insert_self k v m = elim (Option-cases (lookup k m)) [
  | inl missing ↦ rw (lookup-or_insert k k v m missing, text_eq_refl k) (λ e. cc e)
  | inr (w, there) ↦ rw (or_insert_present k v w m there, there) (λ e. cc e)
]

or_insert_other :
    (j k v : Text) (m : Dict Text) → text_eq j k ≡ false → lookup j (or_insert k v m) ≡ lookup j m
or_insert_other j k v m differ = elim (Option-cases (lookup k m)) [
  | inl missing ↦ rw (lookup-or_insert j k v m missing, differ) refl
  | inr (w, there) ↦ rw (or_insert_present k v w m there)
]

or_insert_keep :
    (j k w v : Text) (m : Dict Text) → lookup k m ≡ some v → lookup k (or_insert j w m) ≡ some v
or_insert_keep j k w v m there = elim (Option-cases (lookup j m)) [
  | inl missing ↦ elim (Bool-cases (text_eq k j)) [
    | inl same ↦
        absurd (
          none-ne-some v
            (sym missing ∙ ap (λ t. lookup t m) (sym (text_eq_sound k j same)) ∙ there))
    | inr differ ↦ or_insert_other k j w m differ ∙ there
  ]
  | inr (u, found) ↦ rw (or_insert_present j w u m found) there
]

-- What the plan asks for has both features, and every feature that was set stays as it was.
pub wanted_features-HasFeatures : (m : Dict Text) → HasFeatures (wanted_features m)
unfolding wanted_features
wanted_features-HasFeatures m = (
  rw (or_insert_other (codes "nesting") (codes "keyctl") (codes "1") _ two_names)
      (lookup-or_insert_self (codes "nesting") (codes "1") m),
  lookup-or_insert_self (codes "keyctl") (codes "1") _,
)

pub wanted_features_keep :
    (k v : Text) (m : Dict Text) → lookup k m ≡ some v → lookup k (wanted_features m) ≡ some v
unfolding wanted_features
wanted_features_keep k v m there =
    or_insert_keep (codes "keyctl") k _ v _ (or_insert_keep (codes "nesting") k _ v m there)

present : (k : Text) (m : Dict Text) → lookup k m ≢ none → (v : Text) × (lookup k m ≡ some v)
present k m h = elim (Option-cases (lookup k m)) [
  | inl missing ↦ absurd (h missing)
  | inr there ↦ there
]

wanted_features_fixed : (m : Dict Text) → HasFeatures m → wanted_features m ≡ m
unfolding wanted_features
wanted_features_fixed m (nesting, keyctl) =
    let (v, there) = present (codes "nesting") m nesting in
    let (w, also) = present (codes "keyctl") m keyctl in
    rw (or_insert_present (codes "nesting") (codes "1") v m there)
      (or_insert_present (codes "keyctl") (codes "1") w m also)

-- No change of the features is planned exactly when both are set.
pub feature_ops-eq-nil_iff : (m : Dict Text) → (feature_ops m ≡ []) ↔ HasFeatures m
unfolding feature_ops
feature_ops-eq-nil_iff m =
    (λ h. found h, λ h. rw (wanted_features_fixed m h, features_eq_refl m) refl)
  where
    found : feature_ops m ≡ [] → HasFeatures m
    found h = elim (Bool-cases (features_eq (wanted_features m) m)) [
      | inl same ↦
          subst HasFeatures (features_eq_sound (wanted_features m) m same)
            (wanted_features-HasFeatures m)
      | inr differ ↦ absurd (cons-ne-nil _ _ (rw (differ, feature_ops) at h))
    ]
