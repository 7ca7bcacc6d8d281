-- ===== src/Ops/Template/Candidate.antt =====
-- Which templates of src/ops/template.rs come into question, said without the code's tests.
use native.Mathlib.Omega.{arith}
use pve_compose.Base.{
  ◌≡◌, ◌≢◌, ◌⊎◌, ◌↔◌, inl, inr, refl, sym, ap, subst, Bool, true, false, ◌&&◌, List, [], ◌∷◌, ◌++◌,
  Text, codes, contains, starts_with, starts_with_sound, strip_prefix-append, split, Lacks,
  Bool-cases, ◌==◌,
}
use pve_compose.Base.{ℕ, push_head}
use pve_compose.Ops.Template.{last_part, for_arch, is_match}

-- What stands behind the last slash of a volid, or the whole of one without a slash.
abbrev pub IsFileOf : (name id : Text) → Type 0
IsFileOf name id = Lacks b'/' name × ((id ≡ name) ⊎ ((dir : Text) × (id ≡ dir ++ b'/' ∷ name)))

-- The file's name begins with the prefix, and `_arch.` stands somewhere in it.
abbrev pub IsCandidate : (prefix arch id : Text) → Type 0
IsCandidate prefix arch id =
    (name : Text) × IsFileOf name id
    × ((rest : Text) × (name ≡ prefix ++ rest))
    × ((before : Text) × (after : Text) × (name
          ≡ before ++ ((codes "_" ++ (arch ++ codes ".")) ++ after)))

starts_with_append : (p r : Text) → starts_with (p ++ r) p ≡ true
starts_with_append p r = rw (strip_prefix-append p r) refl

contains_sound : (s t : Text) → contains s t ≡ true → (a : Text) × (b : Text) × (s ≡ a ++ (t ++ b))
unfolding contains
contains_sound [] t h = let (r, _, e) = starts_with_sound [] t h in ([], r, e)
contains_sound (c ∷ s) t h = elim (Bool-cases (starts_with (c ∷ s) t)) [
  | inl here ↦ let (r, _, e) = starts_with_sound (c ∷ s) t here in ([], r, e)
  | inr on ↦ let (a, b, e) = contains_sound s t (rw on at h) in (c ∷ a, b, ap (λ u. c ∷ u) e)
]

contains_here : (s t : Text) → starts_with s t ≡ true → contains s t ≡ true
unfolding contains
contains_here [] t h = h
contains_here (c ∷ s) t h = rw h refl

contains_append : (a t b : Text) → contains (a ++ (t ++ b)) t ≡ true
unfolding contains
contains_append [] t b = contains_here (t ++ b) t (starts_with_append t b)
contains_append (c ∷ a) t b = ground (arith, contains_append a t b)

slash_differ : (c : ℕ) → (c == b'/') ≡ false → c ≢ b'/'
slash_differ c h = ground arith

-- A text is cut at its slashes: it has one part that is the whole, or more of which the last is what
-- stands behind the last slash.
abbrev Cut : Text → List Text → Type 0
Cut id [] = ⊥
Cut id (p ∷ []) = (p ≡ id) × Lacks b'/' id
Cut id (p ∷ q ∷ ps) =
    (dir : Text) × (id ≡ dir ++ b'/' ∷ last_part (q ∷ ps)) × Lacks b'/' (last_part (q ∷ ps))

behind-Cut : (id : Text) (ps : List Text) → Cut id ps → Cut (b'/' ∷ id) ([] ∷ ps)
behind-Cut id [] h = absurd h
behind-Cut id (p ∷ []) (e, l) = ([], ap (λ t. b'/' ∷ t) (sym e), subst (Lacks b'/') (sym e) l)
behind-Cut id (p ∷ q ∷ ps) (dir, e, l) = (b'/' ∷ dir, ap (λ t. b'/' ∷ t) e, l)

push_head-Cut :
    (c : ℕ) (id : Text) (ps : List Text)
    → (c == b'/') ≡ false
    → Cut id ps
    → Cut (c ∷ id) (push_head b'/' c ps)
push_head-Cut c id [] h k = absurd k
push_head-Cut c id (p ∷ []) h (e, l) = (ap (λ t. c ∷ t) e, (slash_differ c h, l))
push_head-Cut c id (p ∷ q ∷ ps) h (dir, e, l) = (c ∷ dir, ap (λ t. c ∷ t) e, l)

split-Cut : (id : Text) → Cut id (split b'/' id)
unfolding split
split-Cut [] = (refl, tt)
split-Cut (c ∷ id) = elim (Bool-cases (c == b'/')) [
  | inl slash ↦ rw slash (
      subst (λ d. Cut (d ∷ id) ([] ∷ split b'/' id)) (is_slash c slash)
        (behind-Cut id (split b'/' id) (split-Cut id)))
  | inr other ↦ rw other (push_head-Cut c id (split b'/' id) other (split-Cut id))
]
  where
    is_slash : (c : ℕ) → (c == b'/') ≡ true → b'/' ≡ c
    is_slash c h = ground arith

file_name : (id : Text) (ps : List Text) → Cut id ps → IsFileOf (last_part ps) id
file_name id [] h = absurd h
file_name id (p ∷ []) (e, l) = (subst (Lacks b'/') (sym e) l, inl (sym e))
file_name id (p ∷ q ∷ ps) (dir, e, l) = (l, inr (dir, e))

split-Lacks : (name : Text) → Lacks b'/' name → split b'/' name ≡ name ∷ []
unfolding split
split-Lacks [] h = refl
split-Lacks (c ∷ name) (differ, h) = rw (split-Lacks name h, other c differ) refl
  where
    other : (c : ℕ) → c ≢ b'/' → (c == b'/') ≡ false
    other c h = ground arith

-- The parts of a text with a slash in it are two at least.
abbrev IsCutAt : Text → List Text → Type 0
IsCutAt name ps =
    (p : Text) × (q : Text) × (qs : List Text) × (ps ≡ p ∷ q ∷ qs) × (last_part (q ∷ qs) ≡ name)

split-IsCutAt : (dir name : Text) → Lacks b'/' name → IsCutAt name (split b'/' (dir ++ b'/' ∷ name))
unfolding split
split-IsCutAt [] name h = rw (split-Lacks name h) ([], name, [], refl, refl)
split-IsCutAt (c ∷ dir) name h =
    let (p, q, qs, e, l) = split-IsCutAt dir name h in
    elim (Bool-cases (c == b'/')) [
      | inl slash ↦ rw (slash, e) ([], p, q ∷ qs, refl, l)
      | inr other ↦ rw (other, e) (c ∷ p, q, qs, refl, l)
    ]

last_part_lem : (name id : Text) → IsFileOf name id → last_part (split b'/' id) ≡ name
last_part_lem name id (h, inl whole) = rw (whole, split-Lacks name h) refl
last_part_lem name id (h, inr (dir, e)) =
    let (p, q, qs, parts, l) = split-IsCutAt dir name h in rw (e, parts) l

-- The code's test takes just the candidates.
pub is_match_iff :
    (prefix arch id : Text) → (is_match prefix arch id ≡ true) ↔ IsCandidate prefix arch id
unfolding is_match for_arch
is_match_iff prefix arch id = (λ h. found h, λ k. passes k)
  where
    both : (a b : Bool) → (a && b) ≡ true → (a ≡ true) × (b ≡ true)
    both a b h = (ground arith, ground arith)

    found : is_match prefix arch id ≡ true → IsCandidate prefix arch id
    found h =
        let n = last_part (split b'/' id) in
        let (starts, suits) =
          both (starts_with n prefix) (contains n (codes "_" ++ (arch ++ codes "."))) h in
        let (rest, _, e) = starts_with_sound n prefix starts in
        (n, file_name id (split b'/' id) (split-Cut id), (rest, e), contains_sound n _ suits)

    passes : IsCandidate prefix arch id → is_match prefix arch id ≡ true
    passes (name, file, (rest, starts), (before, after, suits)) =
        rw
          (
            last_part_lem name id file,
            subst (λ n. starts_with n prefix ≡ true) (sym starts) (starts_with_append prefix rest),
            subst (λ n. contains n (codes "_" ++ (arch ++ codes ".")) ≡ true) (sym suits)
                (contains_append before (codes "_" ++ (arch ++ codes ".")) after),
          )
          refl
