-- ===== src/Base/Dict/Sorted.antt =====
-- Association lists whose keys rise, which is how a `BTreeMap` is walked.
use native.Mathlib.Omega.{arith}
use mathlib.Core.Path.{◌≡◌, refl, ap, sym, subst, ◌∙◌}
use mathlib.Core.Bool.{Bool, true, false}
use mathlib.Core.List.{[], ◌∷◌, ◌++◌}
use mathlib.Core.Logic.{inl, inr}
use mathlib.Core.Option.{none}
use pve_compose.Base.Tests.{if◌then◌else◌, Bool-cases}
use pve_compose.Base.Texts.{Text, text_eq, text_eq_ne, text_eq_refl, text_eq_sound}
use pve_compose.Base.Dict.{text_lt, Dict, insert, lookup, remove}

pub text_lt_asym : (s t : Text) → text_lt s t ≡ true → text_lt t s ≡ false
unfolding text_lt
text_lt_asym [] [] h = refl
text_lt_asym [] (d ∷ t) h = refl
text_lt_asym (c ∷ s) [] h = cc h
text_lt_asym (c ∷ s) (d ∷ t) h = ground (arith, text_lt_asym s t)

pub text_lt_irrefl : (s : Text) → text_lt s s ≡ false
unfolding text_lt
text_lt_irrefl [] = refl
text_lt_irrefl (c ∷ s) = ground (arith, text_lt_irrefl s)

text_ne_lt : (j k : Text) → text_lt j k ≡ true → text_eq k j ≡ false
text_ne_lt j k h =
    text_eq_ne k j (λ e. cc (sym (text_lt_irrefl j) ∙ subst (λ t. text_lt j t ≡ true) e h))

-- Every key of the list is above `k`, or below it.
module _ {ℓ} {V : Type ℓ} where
  abbrev pub KeysAbove : Text → Dict V → Type 0
  KeysAbove k [] = Unit
  KeysAbove k ((j, _) ∷ m) = (text_lt k j ≡ true) × KeysAbove k m

  abbrev pub KeysBelow : Text → Dict V → Type 0
  KeysBelow k [] = Unit
  KeysBelow k ((j, _) ∷ m) = (text_lt j k ≡ true) × KeysBelow k m

  abbrev pub IsSorted : Dict V → Type 0
  IsSorted [] = Unit
  IsSorted ((k, _) ∷ m) = KeysAbove k m × IsSorted m

  -- Every key of the one list is below every key of the other.
  abbrev pub Precedes : Dict V → Dict V → Type 0
  Precedes m [] = Unit
  Precedes m ((k, _) ∷ n) = KeysBelow k m × Precedes m n

  KeysBelow-snoc :
      (k j : Text) (v : V) (m : Dict V)
      → KeysBelow k m
      → text_lt j k ≡ true
      → KeysBelow k (m ++ (j, v) ∷ [])
  KeysBelow-snoc k j v [] h l = (l, tt)
  KeysBelow-snoc k j v ((i, w) ∷ m) (b, h) l = (b, KeysBelow-snoc k j v m h l)

  pub Precedes-snoc :
      (k : Text) (v : V) (m n : Dict V)
      → Precedes m n
      → KeysAbove k n
      → Precedes (m ++ (k, v) ∷ []) n
  Precedes-snoc k v m [] h a = tt
  Precedes-snoc k v m ((j, w) ∷ n) (b, h) (l, a) =
      (KeysBelow-snoc j k v m b l, Precedes-snoc k v m n h a)

  pub Precedes-nil : (n : Dict V) → Precedes [] n
  Precedes-nil [] = tt
  Precedes-nil ((k, v) ∷ n) = (tt, Precedes-nil n)

  -- A key above all others goes to the end.
  pub insert_last :
      (k : Text) (v : V) (m : Dict V) → KeysBelow k m → insert k v m ≡ m ++ (k, v) ∷ []
  unfolding insert
  insert_last k v [] h = refl
  insert_last k v ((j, w) ∷ m) (l, h) =
      rw (text_ne_lt j k l, text_lt_asym j k l) (ap (λ t. (j, w) ∷ t) (insert_last k v m h))

pub text_lt_trans : (s t u : Text) → text_lt s t ≡ true → text_lt t u ≡ true → text_lt s u ≡ true
unfolding text_lt
text_lt_trans s [] u h k = absurd (cc h)
text_lt_trans s (d ∷ t) [] h k = absurd (cc k)
text_lt_trans [] (d ∷ t) (e ∷ u) h k = refl
text_lt_trans (c ∷ s) (d ∷ t) (e ∷ u) h k = ground (arith, text_lt_trans s t u)

pub text_lt_neg_trans :
    (s t u : Text) → text_lt s t ≡ false → text_lt t u ≡ false → text_lt s u ≡ false
unfolding text_lt
text_lt_neg_trans s t [] h k = refl
text_lt_neg_trans [] [] (e ∷ u) h k = k
text_lt_neg_trans [] (d ∷ t) (e ∷ u) h k = absurd (cc h)
text_lt_neg_trans (c ∷ s) [] (e ∷ u) h k = absurd (cc k)
text_lt_neg_trans (c ∷ s) (d ∷ t) (e ∷ u) h k = ground (arith, text_lt_neg_trans s t u)

text_lt_ne : (j k : Text) → text_lt j k ≡ true → text_eq j k ≡ false
text_lt_ne j k h =
    text_eq_ne j k (λ e. cc (sym (text_lt_irrefl j) ∙ subst (λ t. text_lt j t ≡ true) (sym e) h))

module _ {ℓ} {V : Type ℓ} where
  pub KeysAbove-trans :
      (j k : Text) (m : Dict V) → text_lt j k ≡ true → KeysAbove k m → KeysAbove j m
  KeysAbove-trans j k [] h a = tt
  KeysAbove-trans j k ((i, _) ∷ m) h (above, a) =
      (text_lt_trans j k i h above, KeysAbove-trans j k m h a)

  pub remove_above : (k : Text) (m : Dict V) → KeysAbove k m → remove k m ≡ m
  unfolding remove
  remove_above k [] a = refl
  remove_above k ((j, w) ∷ m) (above, a) = rw (text_lt_ne k j above, remove_above k m a) refl

  pub remove_absent : (k : Text) (m : Dict V) → lookup k m ≡ none → remove k m ≡ m
  unfolding remove lookup
  remove_absent k [] h = refl
  remove_absent k ((j, w) ∷ m) h = elim (Bool-cases (text_eq k j)) [
    | inl same ↦ absurd (cc (rw same at h))
    | inr other ↦ rw other (ap (λ t. (j, w) ∷ t) (remove_absent k m (rw other at h)))
  ]

  -- What was inserted is removed with the key, and what stood there before too.
  pub remove-insert :
      (k : Text) (v : V) (m : Dict V) → IsSorted m → remove k (insert k v m) ≡ remove k m
  unfolding remove insert
  remove-insert k v [] s = rw (text_eq_refl k) refl
  remove-insert k v ((j, w) ∷ m) (above, s) = elim (Bool-cases (text_eq k j)) [
    | inl same ↦ rw (same, text_eq_refl k) refl
    | inr other ↦ elim (Bool-cases (text_lt k j)) [
      | inl below ↦
          rw (other, below, text_eq_refl k, remove_above k m (KeysAbove-trans k j m below above))
            refl
      | inr later ↦ rw (other, later) (rw (other, remove-insert k v m s) refl)
    ]
  ]

  pub lookup_above : (k : Text) (m : Dict V) → KeysAbove k m → lookup k m ≡ none
  unfolding lookup
  lookup_above k [] a = refl
  lookup_above k ((j, w) ∷ m) (above, a) = rw (text_lt_ne k j above) (lookup_above k m a)

  pub lookup-remove :
      (j k : Text) (m : Dict V)
      → IsSorted m
      → lookup j (remove k m) ≡ (if text_eq j k then none else lookup j m)
  unfolding lookup remove
  lookup-remove j k [] s = ground arith
  lookup-remove j k ((i, w) ∷ m) (above, s) = elim (Bool-cases (text_eq k i)) [
    | inl same ↦
        let e = text_eq_sound k i same in
        rw same (elim (Bool-cases (text_eq j i)) [
          | inl here ↦ rw (subst (λ t. text_eq j t ≡ true) (sym e) here) (
              subst (λ t. lookup t m ≡ none) (sym (text_eq_sound j i here))
                (lookup_above i m above))
          | inr there ↦ rw (subst (λ t. text_eq j t ≡ false) (sym e) there, there) refl
        ])
    | inr other ↦ rw other (elim (Bool-cases (text_eq j i)) [
      | inl here ↦
          rw
            (
              here,
              text_eq_ne j k (λ h.
                  not_both (text_eq k i)
                    (subst (λ t. text_eq t i ≡ true) (sym (sym h ∙ text_eq_sound j i here))
                      (text_eq_refl i))
                    other),
            )
            refl
      | inr there ↦ rw there (lookup-remove j k m s)
    ])
  ]
    where
      not_both : (b : Bool) → b ≡ true → b ≡ false → ⊥
      not_both b h k = cc (sym h ∙ k)
