-- ===== src/Spec/Bounds/Paths.antt =====
-- What the checks of src/spec.rs mean: paths by their segments, and what the accepted requests are.
use native.Mathlib.Omega.{arith}
use pve_compose.Base.{
  ◌≡◌, ◌≢◌, ◌↔◌, inl, inr, refl, true, Option, none, some, List, [], ◌∷◌, Text, codes, All,
  starts_with, strip_prefix, split, Option-cases, ok,
}
use pve_compose.Spec.Bounds.{slash, check_segments, check_clean_absolute}

-- A path segment that names an entry of its directory.
abbrev pub IsPlain : Text → Type 0
IsPlain seg = (seg ≢ []) × (seg ≢ codes ".") × (seg ≢ codes "..")

-- The segments between the slashes behind the first; the root directory has none.
abbrev pub segments_of : Text → List Text
segments_of [] = []
segments_of (c ∷ s) = split slash (c ∷ s)

abbrev pub rest_of : Option Text → Text
rest_of none = []
rest_of (some r) = r

unfoldable pub segments : Text → List Text
segments path = segments_of (rest_of (strip_prefix path (codes "/")))

-- An absolute path that stays where its text says: every segment names an entry.
abbrev pub IsClean : Text → Type 0
IsClean path = (starts_with path (codes "/") ≡ true) × All IsPlain (segments path)

check_segments_iff :
    (path : Text) (segs : List Text) → (check_segments path segs ≡ ok tt) ↔ All IsPlain segs
unfolding check_segments
check_segments_iff path [] = (λ _. tt, λ _. refl)
check_segments_iff path ([] ∷ segs) = (λ h. cc, λ h. absurd (h.0.0 refl))
check_segments_iff path ((c ∷ s) ∷ segs) = (
  λ h. ground (arith, check_segments_iff path segs),
  λ h. ground (arith, check_segments_iff path segs),
)

IsClean-rest :
    (path r : Text)
    → strip_prefix path (codes "/") ≡ some r
    → (check_clean_absolute path ≡ ok tt) ↔ IsClean path
unfolding check_clean_absolute segments
IsClean-rest path [] e = rw (e, check_clean_absolute, segments) (λ _. (refl, tt), λ _. refl)
IsClean-rest path (c ∷ r) e =
    let steps = check_segments_iff path (split slash (c ∷ r)) in
    rw (e, check_clean_absolute, segments) (λ h. (refl, steps.0 h), λ h. steps.1 h.1)

-- The check accepts exactly the clean absolute paths.
pub check_clean_absolute_iff : (path : Text) → (check_clean_absolute path ≡ ok tt) ↔ IsClean path
check_clean_absolute_iff path = elim (Option-cases (strip_prefix path (codes "/"))) [
  | inl none_there ↦ relative none_there
  | inr (r, e) ↦ IsClean-rest path r e
]
  where
    relative :
        strip_prefix path (codes "/") ≡ none → (check_clean_absolute path ≡ ok tt) ↔ IsClean path
    relative e =
        unfold check_clean_absolute segments in
        (rw (e, check_clean_absolute, segments) (λ h. cc, λ h. cc h.0))
