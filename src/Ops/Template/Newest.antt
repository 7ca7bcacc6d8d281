-- ===== src/Ops/Template/Newest.antt =====
-- The choice of src/ops/template.rs among the templates of a storage.
use pve_compose.Base.{
  ◌≡◌, ◌⊎◌, refl, sym, ◌∙◌, subst, Bool, true, false, ◌&&◌, Option, none, some, List, [], ◌∷◌, Text,
  All, Any, All-map, Option-cases, Bool-cases, inl, inr,
}
use pve_compose.Base.Dict.{text_lt}
use pve_compose.Base.Dict.Sorted.{text_lt_neg_trans, text_lt_irrefl, text_lt_asym}
use pve_compose.Ops.Template.Candidate.{IsCandidate, is_match_iff}
use pve_compose.Ops.Template.{is_match, filtered, insert_name, sort, pop, newest_vztmpl}

-- `none` for a list in which nothing passes the test, and else an item that passes and that no item
-- that passes is above.
abbrev IsGreatestOf : (Text → Bool) → List Text → Option Text → Type 0
IsGreatestOf p ids none = All (λ t. p t ≡ false) ids
IsGreatestOf p ids (some v) =
    Any (λ t. (t ≡ v) × (p t ≡ true)) ids × All (λ t. (p t && text_lt v t) ≡ false) ids

-- No item stands before a smaller one.
abbrev IsAscending : List Text → Type 0
IsAscending [] = Unit
IsAscending (t ∷ ts) = All (λ u. text_lt u t ≡ false) ts × IsAscending ts

module _ (P : Text → Type 0) where
  All-insert_name : (t : Text) (us : List Text) → P t → All P us → All P (insert_name t us)
  unfolding insert_name
  All-insert_name t [] h k = (h, tt)
  All-insert_name t (u ∷ us) h (p, k) = elim (Bool-cases (text_lt u t)) [
    | inl above ↦ rw above (p, All-insert_name t us h k)
    | inr below ↦ rw below (h, (p, k))
  ]

  insert_name-All : (t : Text) (us : List Text) → All P (insert_name t us) → P t × All P us
  unfolding insert_name
  insert_name-All t [] (h, k) = (h, tt)
  insert_name-All t (u ∷ us) h = elim (Bool-cases (text_lt u t)) [
    | inl above ↦ let (p, k) = rw above at h in let (q, l) = insert_name-All t us k in (q, (p, l))
    | inr below ↦ rw below at h
  ]

  sort-All : (ts : List Text) → All P (sort ts) → All P ts
  unfolding sort
  sort-All [] h = tt
  sort-All (t ∷ ts) h = let (p, k) = insert_name-All t (sort ts) h in (p, sort-All ts k)

  insert_name-Any : (t : Text) (us : List Text) → Any P (insert_name t us) → Any P (t ∷ us)
  unfolding insert_name
  insert_name-Any t [] h = h
  insert_name-Any t (u ∷ us) h = elim (Bool-cases (text_lt u t)) [
    | inl above ↦ elim (rw above at h) [
      | inl p ↦ inr (inl p)
      | inr k ↦ elim (insert_name-Any t us k) [ inl p ↦ inl p | inr l ↦ inr (inr l) ]
    ]
    | inr below ↦ rw below at h
  ]

  sort-Any : (ts : List Text) → Any P (sort ts) → Any P ts
  unfolding sort
  sort-Any [] h = h
  sort-Any (t ∷ ts) h = elim (insert_name-Any t (sort ts) h) [
    | inl p ↦ inl p
    | inr k ↦ inr (sort-Any ts k)
  ]

insert_name-IsAscending :
    (t : Text) (us : List Text) → IsAscending us → IsAscending (insert_name t us)
unfolding insert_name
insert_name-IsAscending t [] h = (tt, tt)
insert_name-IsAscending t (u ∷ us) (h, k) = elim (Bool-cases (text_lt u t)) [
  | inl above ↦ rw above (
    All-insert_name (λ x. text_lt x u ≡ false) t us (text_lt_asym u t above) h,
    insert_name-IsAscending t us k,
  )
  | inr below ↦ rw below ((below, All-map (λ x g. text_lt_neg_trans x u t g below) us h), (h, k))
]

sort-IsAscending : (ts : List Text) → IsAscending (sort ts)
unfolding sort
sort-IsAscending [] = tt
sort-IsAscending (t ∷ ts) = insert_name-IsAscending t (sort ts) (sort-IsAscending ts)

All-there : (P : Text → Type 0) {v : Text} (ts : List Text) → All P ts → Any (λ t. t ≡ v) ts → P v
All-there P [] h none_there = absurd none_there
All-there P (t ∷ ts) (p, h) (inl e) = subst P e p
All-there P (t ∷ ts) (p, h) (inr k) = All-there P ts h k

some-injective : {t u : Text} → Path (Option Text) (some t) (some u) → t ≡ u
some-injective h = cc h

-- `pop` takes the greatest.
pop-greatest :
    (ts : List Text) (v : Text)
    → IsAscending ts
    → pop ts ≡ some v
    → Any (λ t. t ≡ v) ts × All (λ t. text_lt v t ≡ false) ts
unfolding pop
pop-greatest [] v a h = absurd (cc h)
pop-greatest (t ∷ []) v a h =
    let e = some-injective h in (inl e, (subst (λ x. text_lt x t ≡ false) e (text_lt_irrefl t), tt))
pop-greatest (t ∷ u ∷ us) v (a, b) h =
    let (there, below) = pop-greatest (u ∷ us) v b h in
    (inr there, (All-there (λ x. text_lt x t ≡ false) (u ∷ us) a there, below))

pop_cons : (t : Text) (us : List Text) → pop (t ∷ us) ≡ none → ⊥
unfolding pop
pop_cons t [] h = cc h
pop_cons t (u ∷ us) h = pop_cons u us h

pop-insert_name : (t : Text) (us : List Text) → pop (insert_name t us) ≡ none → ⊥
unfolding insert_name
pop-insert_name t [] h = pop_cons t [] h
pop-insert_name t (u ∷ us) h = elim (Bool-cases (text_lt u t)) [
  | inl above ↦ pop_cons u (insert_name t us) (rw above at h)
  | inr below ↦ pop_cons t (u ∷ us) (rw below at h)
]

sort_nil : (ts : List Text) → pop (sort ts) ≡ none → ts ≡ []
unfolding sort
sort_nil [] h = refl
sort_nil (t ∷ ts) h = absurd (pop-insert_name t (sort ts) h)

module _ (p : Text → Bool) where
  filtered-Any :
      (v : Text) (ids : List Text)
      → Any (λ t. t ≡ v) (filtered p ids)
      → Any (λ t. (t ≡ v) × (p t ≡ true)) ids
  unfolding filtered
  filtered-Any v [] h = h
  filtered-Any v (t ∷ ts) h = elim (Bool-cases (p t)) [
    | inl good ↦ elim (rw good at h) [ inl e ↦ inl (e, good) | inr k ↦ inr (filtered-Any v ts k) ]
    | inr bad ↦ inr (filtered-Any v ts (rw bad at h))
  ]

  filtered-All :
      (q : Text → Bool) (ids : List Text)
      → All (λ t. q t ≡ false) (filtered p ids)
      → All (λ t. (p t && q t) ≡ false) ids
  unfolding filtered
  filtered-All q [] h = tt
  filtered-All q (t ∷ ts) h = elim (Bool-cases (p t)) [
    | inl good ↦ let (g, k) = rw good at h in (rw (good, g) refl, filtered-All q ts k)
    | inr bad ↦ (rw bad refl, filtered-All q ts (rw bad at h))
  ]

  filtered_nil : (ids : List Text) → filtered p ids ≡ [] → All (λ t. p t ≡ false) ids
  unfolding filtered
  filtered_nil [] h = tt
  filtered_nil (t ∷ ts) h = elim (Bool-cases (p t)) [
    | inl good ↦ absurd (cc (rw good at h))
    | inr bad ↦ (bad, filtered_nil ts (rw bad at h))
  ]

  pop-IsGreatestOf : (ids : List Text) → IsGreatestOf p ids (pop (sort (filtered p ids)))
  pop-IsGreatestOf ids = elim (Option-cases (pop (sort (filtered p ids)))) [
    | inl none_there ↦ rw none_there (filtered_nil ids (sort_nil (filtered p ids) none_there))
    | inr (v, e) ↦
        let (there, below) =
          pop-greatest (sort (filtered p ids)) v (sort-IsAscending (filtered p ids)) e in
        rw e (
          filtered-Any v ids (sort-Any (λ t. t ≡ v) (filtered p ids) there),
          filtered-All (λ t. text_lt v t) ids
              (sort-All (λ t. text_lt v t ≡ false) (filtered p ids) below),
        )
  ]

-- Nothing listed is a candidate, or the result is one, is listed, and no listed candidate is above it
-- in the order of texts, which is not that of versions.
abbrev pub IsGreatest : (prefix arch : Text) → List Text → Option Text → Type 0
IsGreatest prefix arch ids none = All (λ t. ¬ IsCandidate prefix arch t) ids
IsGreatest prefix arch ids (some v) =
    IsCandidate prefix arch v
    × Any (λ t. t ≡ v) ids
    × All (λ t. (¬ IsCandidate prefix arch t) ⊎ (text_lt v t ≡ false)) ids

module _ (prefix arch : Text) where
  is_match-IsCandidate : (t : Text) → is_match prefix arch t ≡ false → ¬ IsCandidate prefix arch t
  is_match-IsCandidate t h k = cc (sym h ∙ (is_match_iff prefix arch t).1 k)

  taken :
      (v : Text) (ids : List Text)
      → Any (λ t. (t ≡ v) × (is_match prefix arch t ≡ true)) ids
      → IsCandidate prefix arch v × Any (λ t. t ≡ v) ids
  taken v [] h = absurd h
  taken v (t ∷ ids) (inl (e, h)) =
      (subst (IsCandidate prefix arch) e ((is_match_iff prefix arch t).0 h), inl e)
  taken v (t ∷ ids) (inr h) = let (k, l) = taken v ids h in (k, inr l)

  not_above :
      (v t : Text)
      → (is_match prefix arch t && text_lt v t) ≡ false
      → (¬ IsCandidate prefix arch t) ⊎ (text_lt v t ≡ false)
  not_above v t h = elim (Bool-cases (is_match prefix arch t)) [
    | inl good ↦ inr (rw good at h)
    | inr bad ↦ inl (is_match-IsCandidate t bad)
  ]

  IsGreatestOf-IsGreatest :
      (ids : List Text) (o : Option Text)
      → IsGreatestOf (is_match prefix arch) ids o
      → IsGreatest prefix arch ids o
  IsGreatestOf-IsGreatest ids none h = All-map is_match-IsCandidate ids h
  IsGreatestOf-IsGreatest ids (some v) (there, below) =
      let (k, l) = taken v ids there in (k, l, All-map (not_above v) ids below)

-- The template taken is one of the storage whose file's name begins with the prefix and holds the
-- node's architecture between `_` and a dot, and no such template has a greater name, as a text; there
-- is none only if the storage has no such template.
pub newest_vztmpl-IsGreatest :
    (prefix arch : Text) (volids : List Text)
    → IsGreatest prefix arch volids (newest_vztmpl prefix arch volids)
unfolding newest_vztmpl
newest_vztmpl-IsGreatest prefix arch volids =
    IsGreatestOf-IsGreatest prefix arch volids _ (pop-IsGreatestOf (is_match prefix arch) volids)
