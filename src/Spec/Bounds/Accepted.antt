-- ===== src/Spec/Bounds/Accepted.antt =====
-- What the checks of src/spec.rs accept, stated without their code.
use Prim.Native.Nat.{min}
use mathlib.Core.List.{cons-ne-nil}
use native.Mathlib.Omega.{arith}
use pve_compose.Base.{
  ℕ, ◌-◌, ◌*◌, ◌^◌, ◌≤◌, ◌≡◌, ◌≢◌, ◌↔◌, ◌⊎◌, inl, inr, refl, ◌∙◌, Bool, true, false, not, ◌||◌,
  List, [], ◌∷◌, ◌++◌, Text, codes, text_eq, text_eq_sound, text_eq_refl, or_true, is_empty, all,
  any, All, Any, all→All, Lacks, split_once, split_once_sound, Option-cases, is_ascii_digit,
  if◌then◌else◌, Bool-cases, Result, ok, err, map_err, subst, map_err-eq-ok, >>=-eq-ok, Any-map,
  Any-not-is_empty,
}
use pve_compose.Size.{Size, gib}
use pve_compose.Config.{Limits}
use pve_compose.Spec.Bounds.{
  Checked, SpecError, bad_owner, check_clean_absolute, under, in_path, in_bind_roots, binds_refused,
  is_name_char, check_roots, check_bind_path, check_storage, check_size, valid_volume_name,
  split_owner, slash,
}
use pve_compose.Spec.Bounds.Paths.{IsPlain, IsClean, check_clean_absolute_iff}
use pve_compose.Spec.Bounds.Inside.{IsInside, under_iff, under-IsInside}

check_roots_sound :
    (name path : Text) (roots : List Text)
    → check_roots name path roots ≡ ok tt
    → Any (λ root. IsClean root × IsInside root path) roots
unfolding check_roots
check_roots_sound name path [] h = absurd (cc h)
check_roots_sound name path (root ∷ roots) h =
    let (_, checked, rest) = >>=-eq-ok (map_err in_bind_roots (check_clean_absolute root)) _ h in
    let clean = (check_clean_absolute_iff root).0 (map_err-eq-ok in_bind_roots _ checked) in
    elim (Bool-cases (under root path)) [
      | inl inside ↦ inl (clean, under-IsInside root path clean inside)
      | inr outside ↦ inr (check_roots_sound name path roots (rw outside at rest))
    ]

check_roots_complete :
    (name path : Text) (roots : List Text)
    → All IsClean roots
    → IsClean path
    → Any (λ root. IsInside root path) roots
    → check_roots name path roots ≡ ok tt
unfolding check_roots
check_roots_complete name path [] _ p none_there = absurd none_there
check_roots_complete name path (root ∷ roots) (clean, rest) p (inl here) =
    rw ((check_clean_absolute_iff root).1 clean, (under_iff root path clean p).1 here) refl
check_roots_complete name path (root ∷ roots) (clean, rest) p (inr later) =
    rw ((check_clean_absolute_iff root).1 clean) (elim (Bool-cases (under root path)) [
      | inl inside ↦ rw inside
      | inr outside ↦ rw outside (check_roots_complete name path roots rest p later)
    ])

any→Any : (t : Text) (xs : List Text) → any (λ s. text_eq s t) xs ≡ true → Any (λ s. s ≡ t) xs
any→Any t [] h = cc
any→Any t (x ∷ xs) h = elim (Bool-cases (text_eq x t)) [
  | inl same ↦ inl (text_eq_sound x t same)
  | inr differ ↦ inr (any→Any t xs (rw differ at h))
]

Any→any : (t : Text) (xs : List Text) → Any (λ s. s ≡ t) xs → any (λ s. text_eq s t) xs ≡ true
Any→any t [] none_there = absurd none_there
Any→any t (x ∷ xs) (inl e) = rw (e, text_eq_refl t) refl
Any→any t (x ∷ xs) (inr later) = rw (Any→any t xs later) (or_true (text_eq x t))

refused : (b : Bool) (e f : SpecError) → Path Checked (if b then err e else err f) (ok tt) → ⊥
refused true e f h = cc
refused false e f h = cc

-- One or more digits.
abbrev pub IsNumeral : Text → Type 0
IsNumeral s = (s ≢ []) × All (λ c. is_ascii_digit c ≡ true) s

module _ (name path : Text) (limits : Limits) where
  -- A bind path that is accepted is a clean absolute path, and its segments begin with those of a
  -- listed root that is itself clean and absolute.
  pub check_bind_path_sound :
      check_bind_path name path limits ≡ ok tt
      → IsClean path × Any (λ root. IsClean root × IsInside root path) limits.bind_roots
  unfolding check_bind_path
  check_bind_path_sound h =
      let (_, checked, rest) = >>=-eq-ok (map_err (in_path name) (check_clean_absolute path)) _ h in
      (
        (check_clean_absolute_iff path).0 (map_err-eq-ok (in_path name) _ checked),
        check_roots_sound name path limits.bind_roots (listed limits.bind_roots rest),
      )
    where
      listed :
          (roots : List Text)
          → (if is_empty roots then err (binds_refused name) else check_roots name path roots)
            ≡ ok tt
          → check_roots name path roots ≡ ok tt
      listed [] e = cc
      listed (root ∷ roots) e = e

  -- Where every listed root is clean and absolute, a bind path is accepted exactly when it is clean
  -- and absolute and lies inside a root by its segments; with no root listed, none is.
  pub check_bind_path_iff :
      All IsClean limits.bind_roots
      → (check_bind_path name path limits ≡ ok tt)
        ↔ (IsClean path × Any (λ root. IsInside root path) limits.bind_roots)
  unfolding check_bind_path
  check_bind_path_iff roots = (
    λ h. forget h,
    λ (p, some_root).
        rw ((check_clean_absolute_iff path).1 p, Any-not-is_empty _ limits.bind_roots some_root)
          (check_roots_complete name path limits.bind_roots roots p some_root),
  )
    where
      forget :
          check_bind_path name path limits ≡ ok tt
          → IsClean path × Any (λ root. IsInside root path) limits.bind_roots
      forget h =
          let (p, found) = check_bind_path_sound h in
          (p, Any-map (λ root (_, inside). inside) limits.bind_roots found)

  -- A storage is accepted exactly when it is listed.
  pub check_storage_iff :
      (storage : Text)
      → (check_storage name storage limits ≡ ok tt) ↔ Any (λ s. s ≡ storage) limits.storages
  unfolding check_storage
  check_storage_iff storage = (λ h. listed h, λ h. rw (Any→any storage limits.storages h) refl)
    where
      listed : check_storage name storage limits ≡ ok tt → Any (λ s. s ≡ storage) limits.storages
      listed h = elim (Bool-cases (any (λ s. text_eq s storage) limits.storages)) [
        | inl there ↦ any→Any storage limits.storages there
        | inr missing ↦ absurd (refused (is_empty limits.storages) _ _ (rw missing at h))
      ]

  -- A size is accepted exactly when it is at most the ceiling, taken as the largest `u64` where the
  -- ceiling in bytes does not fit one.
  pub check_size_iff :
      (size : Size)
      → (check_size name size limits ≡ ok tt)
        ↔ (size.bytes ≤ min (limits.max_disk_gib * gib) (2 ^ 64 - 1))
  unfolding check_size
  check_size_iff size = ground arith

abbrev pub IsNameChar : ℕ → Type 0
IsNameChar c = is_name_char c ≡ true

slash_not_name : (s : Text) → All IsNameChar s → Lacks slash s
slash_not_name [] _ = tt
slash_not_name (c ∷ s) (h, hs) = (ground arith, slash_not_name s hs)

-- An accepted name is one plain segment: no slash, not empty, not `.` and not `..`.
pub valid_volume_name_sound :
    (name : Text) → valid_volume_name name ≡ true → IsPlain name × Lacks slash name
unfolding valid_volume_name
valid_volume_name_sound [] h = absurd (ground arith)
valid_volume_name_sound (c ∷ s) h = (
  (cons-ne-nil c s, not_dot, not_dots),
  slash_not_name (c ∷ s) (all→All is_name_char (c ∷ s) (ground arith)),
)
  where
    dot : valid_volume_name (codes ".") ≢ true
    dot = λ k. cc k

    dots : valid_volume_name (codes "..") ≢ true
    dots = λ k. cc k

    not_dot : c ∷ s ≢ codes "."
    not_dot e = dot (subst (λ n. valid_volume_name n ≡ true) e h)

    not_dots : c ∷ s ≢ codes ".."
    not_dots e = dots (subst (λ n. valid_volume_name n ≡ true) e h)

not_empty : (s : Text) → is_empty s ≡ false → s ≢ []
not_empty [] h = cc
not_empty (c ∷ s) h = cons-ne-nil c s

module _ (u g v w : Text) where
  abbrev owner_bad : Bool
  owner_bad = is_empty u || is_empty g || not (all is_ascii_digit u) || not (all is_ascii_digit g)

  numerals :
      (owner : Text)
      → Path
          (Result SpecError (Text × Text))
          (if owner_bad then err (bad_owner owner) else ok (u, g))
          (ok (v, w))
      → (IsNumeral u × IsNumeral g × (u ≡ v) × (g ≡ w))
  numerals owner h = elim (Bool-cases owner_bad) [
    | inl bad ↦ absurd (cc (rw bad at h))
    | inr good ↦ (
      (not_empty u (ground arith), all→All is_ascii_digit u (ground arith)),
      (not_empty g (ground arith), all→All is_ascii_digit g (ground arith)),
      ground arith,
      ground arith,
    )
  ]

-- An accepted owner is two runs of digits joined by a colon, or one that stands for both.
pub split_owner_sound :
    (owner u g : Text)
    → split_owner owner ≡ ok (u, g)
    → (IsNumeral u × IsNumeral g × ((owner ≡ u ++ b':' ∷ g) ⊎ ((owner ≡ u) × (owner ≡ g))))
unfolding split_owner
split_owner_sound owner u g h = elim (Option-cases (split_once b':' owner)) [
  | inl whole ↦
      let (nu, ng, eu, eg) = numerals owner owner u g owner (rw (whole, split_owner) at h) in
      (rw (← eu) nu, rw (← eg) ng, inr (eu, eg))
  | inr (ab, cut) ↦
      let (nu, ng, eu, eg) = numerals ab.0 ab.1 u g owner (rw (cut, split_owner) at h) in
      (rw (← eu) nu, rw (← eg) ng, inl (split_once_sound b':' owner ab.0 ab.1 cut ∙ ground arith))
]
