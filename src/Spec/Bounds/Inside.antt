-- ===== src/Spec/Bounds/Inside.antt =====
-- The text comparison of src/spec.rs against containment by path segments.
use mathlib.Core.List.{cons-ne-nil}
use native.Mathlib.Omega.{arith}
use pve_compose.Base.{
  ℕ, ◌≡◌, ◌≢◌, ◌↔◌, ◌⊎◌, inl, inr, refl, sym, ◌∙◌, ap, true, List, [], ◌∷◌, ◌++◌, Text, codes,
  text_dec, text_eq, text_eq_sound, text_eq_ne, or_true, text_eq_refl, starts_with,
  starts_with_sound, append_assoc, append-nil, join, strip_prefix, strip_prefix-append, split, ◌==◌,
  Bool-cases,
}
use pve_compose.Spec.Bounds.{slash, under}
use pve_compose.Spec.Bounds.Paths.{IsClean, segments, segments_of}

-- The path is the root, or lies below it: its segments begin with the root's.
abbrev pub IsInside : Text → Text → Type 0
IsInside root path = (more : List Text) × (segments path ≡ segments root ++ more)

split_cons : (s : Text) → (p : Text) × (ps : List Text) × (split slash s ≡ p ∷ ps)
unfolding split
split_cons [] = ([], [], refl)
split_cons (c ∷ s) =
    let (p, ps, e) = split_cons s in
    elim (Bool-cases (c == slash)) [
      | inl cut ↦ ([], p ∷ ps, rw (cut, e))
      | inr on ↦ (c ∷ p, ps, rw (on, e))
    ]

-- Splitting at a slash that stands in the text.
split-append : (s t : Text) → split slash (s ++ slash ∷ t) ≡ split slash s ++ split slash t
unfolding split
split-append [] t = refl
split-append (c ∷ s) t = let (p, ps, e) = split_cons s in rw (split-append s t, e) (ground arith)

pub segments_below :
    (r t : Text)
    → r ≢ []
    → segments (slash ∷ r ++ slash ∷ t) ≡ segments (slash ∷ r) ++ split slash t
unfolding segments strip_prefix
segments_below [] t h = absurd (h refl)
segments_below (c ∷ r) t h = split-append (c ∷ r) t

IsInside-root : (path : Text) → IsInside (codes "/") path
unfolding segments strip_prefix
IsInside-root path = (segments path, refl)

IsInside-below :
    (r t : Text) → (slash ∷ r ≡ codes "/") ⊎ IsInside (slash ∷ r) (slash ∷ r ++ slash ∷ t)
IsInside-below [] t = inl refl
IsInside-below (c ∷ r) t = inr (split slash t, segments_below (c ∷ r) t (cons-ne-nil c r))

below_root :
    (root path : Text)
    → IsClean root
    → starts_with path (root ++ codes "/") ≡ true
    → (root ≡ codes "/") ⊎ IsInside root path
below_root root path clean h =
    let (r, _, e) = starts_with_sound root (codes "/") clean.0 in
    let (t, _, f) = starts_with_sound path (root ++ codes "/") h in
    rw (f, append_assoc, e) (IsInside-below r t)

-- Text that is a clean root or continues it behind a slash is inside it.
pub under-IsInside : (root path : Text) → IsClean root → under root path ≡ true → IsInside root path
unfolding under
under-IsInside root path r h = elim (Bool-cases (text_eq path root)) [
  | inl same ↦ ([], rw (text_eq_sound path root same, append-nil))
  | inr differ ↦ elim (Bool-cases (text_eq root (codes "/"))) [
    | inl top ↦ rw (text_eq_sound root (codes "/") top) (IsInside-root path)
    | inr other ↦ elim (below_root root path r (rw (differ, other, under) at h)) [
      | inl top ↦ rw top (IsInside-root path)
      | inr inside ↦ inside
    ]
  ]
]

-- The text that segments spell behind the first slash.
spell : List Text → Text
spell = join (slash ∷ [])

spell_longer : (c : ℕ) (p : Text) (ps : List Text) → spell ((c ∷ p) ∷ ps) ≡ c ∷ spell (p ∷ ps)
unfolding spell join
spell_longer c p [] = refl
spell_longer c p (q ∷ ps) = refl

spell_cut : (p : Text) (ps : List Text) → spell ([] ∷ p ∷ ps) ≡ slash ∷ spell (p ∷ ps)
unfolding spell join
spell_cut p ps = refl

spell_one : (p : Text) → spell (p ∷ []) ≡ p
unfolding spell join
spell_one p = refl

spell-split : (s : Text) → spell (split slash s) ≡ s
unfolding split
spell-split [] = spell_one []
spell-split (c ∷ s) =
    let (p, ps, e) = split_cons s in
    let ih : spell (p ∷ ps) ≡ s = rw e at (spell-split s) in
    elim (Bool-cases (c == slash)) [
      | inl cut ↦ rw (cut, e, spell_cut, ih) (ground arith)
      | inr on ↦ rw (on, e, spell_longer, ih) refl
    ]

spell-append :
    (p q : Text) (ps qs : List Text)
    → spell ((p ∷ ps) ++ q ∷ qs) ≡ spell (p ∷ ps) ++ slash ∷ spell (q ∷ qs)
unfolding spell join
spell-append p q [] qs = refl
spell-append p q (p' ∷ ps) qs = rw (spell-append p' q ps qs) (simp append_assoc)

-- A clean path is its segments, each behind a slash.
absolute_spell : (path : Text) → IsClean path → path ≡ slash ∷ spell (segments path)
unfolding segments
absolute_spell path clean =
    let (r, found, e) = starts_with_sound path (codes "/") clean.0 in rw found (e ∙ tail r)
  where
    tail : (r : Text) → slash ∷ r ≡ slash ∷ spell (segments_of r)
    tail [] = unfold spell join in refl
    tail (c ∷ r) = rw spell-split

continues :
    (segs more : List Text)
    → segs ≢ []
    → more ≢ []
    → spell (segs ++ more) ≡ spell segs ++ slash ∷ spell more
continues [] more h _ = absurd (h refl)
continues (p ∷ ps) [] _ h = absurd (h refl)
continues (p ∷ ps) (q ∷ qs) _ _ = spell-append p q ps qs

top_text : (root : Text) → IsClean root → segments root ≡ [] → root ≡ codes "/"
top_text root clean e = absolute_spell root clean ∙ unfold spell join in rw e refl

module _ (root path : Text) (r : IsClean root) (p : IsClean path) where
  under_top : root ≡ codes "/" → under root path ≡ true
  unfolding under
  under_top e =
      rw (e, under, text_eq_refl (codes "/")) (rw p.0 (or_true (text_eq path (codes "/"))))

  under_lower :
      (rest : Text) → path ≡ root ++ slash ∷ rest → root ≢ codes "/" → under root path ≡ true
  unfolding under
  under_lower rest e other =
      rw (text_eq_ne root (codes "/") other, under)
        (rw (e, ← append_assoc root (codes "/") rest)
          (rw (strip_prefix-append (root ++ codes "/") rest) (or_true _)))

  under_same : path ≡ root → under root path ≡ true
  unfolding under
  under_same e = rw (e, under, text_eq_refl root) refl

  lower_text :
      (q : Text) (qs : List Text)
      → segments path ≡ segments root ++ q ∷ qs
      → root ≢ codes "/"
      → path ≡ root ++ slash ∷ spell (q ∷ qs)
  lower_text q qs e other =
      absolute_spell path p
      ∙ ap (λ t. slash ∷ spell t) e
      ∙ ap (λ t. slash ∷ t)
          (continues (segments root) (q ∷ qs) (λ z. other (top_text root r z)) (cons-ne-nil q qs))
      ∙ ap (λ t. t ++ slash ∷ spell (q ∷ qs)) (sym (absolute_spell root r))

  IsInside-under_more :
      (more : List Text) → segments path ≡ segments root ++ more → under root path ≡ true
  IsInside-under_more [] e = under_same (
      absolute_spell path p
      ∙ ap (λ t. slash ∷ spell t) (e ∙ append-nil _)
      ∙ sym (absolute_spell root r))
  IsInside-under_more (q ∷ qs) e = elim (text_dec root (codes "/")) [
    | yes top ↦ under_top top
    | no other ↦ under_lower (spell (q ∷ qs)) (lower_text q qs e other) other
  ]

-- Of clean paths, those under a root by their text are those inside it by their segments.
pub under_iff :
    (root path : Text) → IsClean root → IsClean path → (under root path ≡ true) ↔ IsInside root path
under_iff root path r p =
    (under-IsInside root path r, λ (more, e). IsInside-under_more root path r p more e)
