-- ===== src/Prompt/First.antt =====
-- The answer that `choose` of src/prompt.rs takes.
use native.Mathlib.Omega.{arith}
use pve_compose.Base.{
  ap, subst, ℕ, zero, suc, ◌-◌, ◌<◌, ◌≡◌, refl, ◌∙◌, true, Option, none, some, List, [], ◌∷◌, ◌++◌,
  Text, trim, All, leb, ◌&&◌, Bool-cases, Option-cases, inl, inr, Result, ok, err,
}
use pve_compose.Base.Decimal.{read, u64_bound}
use pve_compose.Prompt.{PromptError, answer, choose_loop, choose}

-- What a run of questions ends with: the index of the first line that is a number in range, with
-- only unusable lines before it, or an error after lines that are all unusable.
abbrev pub IsFirst : (count : ℕ) → List Text → Result PromptError ℕ → Type 0
IsFirst count lines (err e) = All (λ l. answer count l ≡ none) lines
IsFirst count lines (ok i) =
    (i < count)
    × (before : List Text) × (l : Text) × (after : List Text) × (lines ≡ before ++ l ∷ after)
    × All (λ b. answer count b ≡ none) before
    × (read u64_bound (trim l) ≡ some (suc i))

some-injective : {i j : ℕ} → Path (Option ℕ) (some i) (some j) → i ≡ j
some-injective h = cc h

in_range : (count n : ℕ) → (leb 1 n && leb n count) ≡ true → (n ≡ suc (n - 1)) × (n - 1 < count)
in_range count n h = (ground arith, ground arith)

answer-some :
    (count : ℕ) (l : Text) (i : ℕ)
    → answer count l ≡ some i
    → (i < count) × (read u64_bound (trim l) ≡ some (suc i))
unfolding answer
answer-some count l i h = elim (Option-cases (read u64_bound (trim l))) [
  | inl bad ↦ absurd (cc (rw bad at h))
  | inr (n, e) ↦ elim (Bool-cases (leb 1 n && leb n count)) [
    | inl good ↦
        let same = some-injective (rw (e, good) at h) in
        let (whole, lt) = in_range count n good in
        (subst (λ j. j < count) same lt, e ∙ ap (λ k. some k) (whole ∙ ap suc same))
    | inr out ↦ absurd (cc (rw (e, out) at h))
  ]
]

add_line :
    (count : ℕ) (l : Text) (ls : List Text) (r : Result PromptError ℕ)
    → answer count l ≡ none
    → IsFirst count ls r
    → IsFirst count (l ∷ ls) r
add_line count l ls (err e) bad h = (bad, h)
add_line count l ls (ok i) bad (lt, before, m, after, cut, unusable, reads) =
    (lt, l ∷ before, m, after, ap (λ t. l ∷ t) cut, (bad, unusable), reads)

-- Of the lines typed, the first usable one is taken, its number less one being an index in range; and
-- there is an error only when no line typed was usable.
pub choose_loop-IsFirst :
    (count : ℕ) (lines : List Text) → IsFirst count lines (choose_loop count lines)
unfolding choose_loop
choose_loop-IsFirst count [] = tt
choose_loop-IsFirst count (l ∷ ls) = elim (Option-cases (answer count l)) [
  | inl bad ↦ rw bad (add_line count l ls (choose_loop count ls) bad (choose_loop-IsFirst count ls))
  | inr (i, e) ↦
      rw e ((answer-some count l i e).0, [], l, ls, refl, tt, (answer-some count l i e).1)
]

-- A choice is the first usable line typed.
pub choose-IsFirst :
    (count : ℕ) (lines : List Text) (i : ℕ) → choose count lines ≡ ok i → IsFirst count lines (ok i)
unfolding choose
choose-IsFirst zero lines i h = absurd (cc h)
choose-IsFirst (suc n) lines i h =
    subst (IsFirst (suc n) lines) h (choose_loop-IsFirst (suc n) lines)
