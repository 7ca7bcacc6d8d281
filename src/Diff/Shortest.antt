-- ===== src/Diff/Shortest.antt =====
-- What `line_diff` of src/ops/diff.rs prints, as an edit script.
use Prim.Native.Nat.{max, zero-le}
use native.Mathlib.Omega.{arith}
use pve_compose.Base.{
  ℕ, zero, suc, ◌+◌, ◌*◌, ◌≤◌, ◌≡◌, refl, ◌∙◌, ap, ap₂, List, [], ◌∷◌, map, Text, text_eq,
  text_eq_sound, text_eq_refl, length, leb, if◌then◌else◌, Bool-cases, inl, inr,
}
use pve_compose.Diff.{
  head, tail, head_row, tail_rows, row, table, Line, keep, remove, add, walk, changes_of,
}

-- The file that a script is for, and the one that it makes.
abbrev pub old : List Line → List Text
old [] = []
old (keep l ∷ ds) = l ∷ old ds
old (remove l ∷ ds) = l ∷ old ds
old (add l ∷ ds) = old ds

abbrev pub new : List Line → List Text
new [] = []
new (keep l ∷ ds) = l ∷ new ds
new (remove l ∷ ds) = new ds
new (add l ∷ ds) = l ∷ new ds

abbrev pub kept : List Line → ℕ
kept [] = 0
kept (keep l ∷ ds) = suc (kept ds)
kept (_ ∷ ds) = kept ds

-- The lines that a script removes or adds.
abbrev pub changes : List Line → ℕ
changes [] = 0
changes (keep l ∷ ds) = changes ds
changes (_ ∷ ds) = suc (changes ds)

-- The length of a longest common subsequence.
best : List Text → List Text → ℕ
best [] b = 0
best (x ∷ xs) [] = 0
best (x ∷ xs) (y ∷ ys) =
    if text_eq x y then best xs ys + 1 else max (best xs (y ∷ ys)) (best (x ∷ xs) ys)

best-nil : (a : List Text) → best a [] ≡ 0
unfolding best
best-nil [] = refl
best-nil (x ∷ xs) = refl

-- One more line in a file adds at most one line to a longest common subsequence.
best_old_le :
    (x : Text) (xs b : List Text)
    → ((y : Text) (ys : List Text) → best xs (y ∷ ys) ≤ best xs ys + 1)
    → best xs b ≤ best (x ∷ xs) b
unfolding best
best_old_le x xs [] h = ground (arith, best-nil xs)
best_old_le x xs (y ∷ ys) h = elim (Bool-cases (text_eq x y)) [
  | inl same ↦ rw same (h y ys)
  | inr other ↦ rw other (ground arith)
]

best_new_step : (a : List Text) (y : Text) (ys : List Text) → best a (y ∷ ys) ≤ best a ys + 1
unfolding best
best_new_step [] y ys = omega arith
best_new_step (x ∷ xs) y ys =
    let above = best_old_le x xs ys (best_new_step xs) in
    elim (Bool-cases (text_eq x y)) [
      | inl same ↦ rw same (omega arith)
      | inr other ↦ rw other (ground (arith, best_new_step xs y ys))
    ]

best_old_step :
    (x : Text) (xs b : List Text)
    → ((y : Text) (ys : List Text) → best xs ys ≤ best xs (y ∷ ys))
    → best (x ∷ xs) b ≤ best xs b + 1
unfolding best
best_old_step x xs [] h = omega arith
best_old_step x xs (y ∷ ys) h = elim (Bool-cases (text_eq x y)) [
  | inl same ↦ rw same (ground (arith, h y ys))
  | inr other ↦ rw other (ground (arith, best_old_step x xs ys h, h y ys))
]

best_new_le : (a : List Text) (y : Text) (ys : List Text) → best a ys ≤ best a (y ∷ ys)
unfolding best
best_new_le [] y ys = omega arith
best_new_le (x ∷ xs) y ys = elim (Bool-cases (text_eq x y)) [
  | inl same ↦ rw same (best_old_step x xs ys (best_new_le xs))
  | inr other ↦ rw other (ground arith)
]

best-same : (x : Text) (xs ys : List Text) → best (x ∷ xs) (x ∷ ys) ≡ best xs ys + 1
unfolding best
best-same x xs ys = rw (text_eq_refl x) refl

-- No script keeps more lines than a longest common subsequence has.
kept-le : (ds : List Line) → kept ds ≤ best (old ds) (new ds)
kept-le [] = zero-le
kept-le (keep l ∷ ds) = rw (best-same l (old ds) (new ds)) (omega (arith, kept-le ds))
kept-le (remove l ∷ ds) =
    omega (arith, kept-le ds, best_old_le l (old ds) (new ds) (best_new_step (old ds)))
kept-le (add l ∷ ds) = omega (arith, kept-le ds, best_new_le (old ds) l (new ds))

-- The cells of a row, and of a table, are the lengths of longest common subsequences of what is left.
IsRow : List Text → List Text → List ℕ → Type 0
IsRow a [] r = head r ≡ best a []
IsRow a (y ∷ ys) r = (head r ≡ best a (y ∷ ys)) × IsRow a ys (tail r)

IsTable : List Text → List Text → List (List ℕ) → Type 0
IsTable [] b t = IsRow [] b (head_row t)
IsTable (x ∷ xs) b t = IsRow (x ∷ xs) b (head_row t) × IsTable xs b (tail_rows t)

-- The cell at the place itself.
head-IsRow : (a b : List Text) (r : List ℕ) → IsRow a b r → head r ≡ best a b
unfolding IsRow
head-IsRow a [] r h = h
head-IsRow a (y ∷ ys) r (h, _) = h

head-IsTable : (a b : List Text) (t : List (List ℕ)) → IsTable a b t → IsRow a b (head_row t)
unfolding IsTable
head-IsTable [] b t h = h
head-IsTable (x ∷ xs) b t (h, _) = h

row-IsRow :
    (x : Text) (xs b : List Text) (below : List ℕ)
    → IsRow xs b below
    → IsRow (x ∷ xs) b (row x b below)
unfolding IsRow best row
row-IsRow x xs [] below h = refl
row-IsRow x xs (y ∷ ys) below (h, hs) =
    let right = row-IsRow x xs ys (tail below) hs in
    (rw (h, head-IsRow xs ys (tail below) hs, head-IsRow (x ∷ xs) ys _ right) refl, right)

zeros-IsRow : (b : List Text) → IsRow [] b (0 ∷ map (λ _. 0) b)
unfolding IsRow best
zeros-IsRow [] = refl
zeros-IsRow (y ∷ ys) = (refl, zeros-IsRow ys)

table-IsTable : (a b : List Text) → IsTable a b (table a b)
unfolding IsTable table
table-IsTable [] b = zeros-IsRow b
table-IsTable (x ∷ xs) b =
    let below = table-IsTable xs b in
    (row-IsRow x xs b (head_row (table xs b)) (head-IsTable xs b (table xs b) below), below)

head_row-map : (t : List (List ℕ)) → head_row (map tail t) ≡ tail (head_row t)
head_row-map [] = refl
head_row-map (r ∷ t) = refl

tail_rows-map : (t : List (List ℕ)) → tail_rows (map tail t) ≡ map tail (tail_rows t)
tail_rows-map [] = refl
tail_rows-map (r ∷ t) = refl

tail-IsTable :
    (a : List Text) (y : Text) (ys : List Text) (t : List (List ℕ))
    → IsTable a (y ∷ ys) t
    → IsTable a ys (map tail t)
unfolding IsTable IsRow
tail-IsTable [] y ys t (_, h) = rw (head_row-map t) h
tail-IsTable (x ∷ xs) y ys t ((_, h), hs) =
    rw (head_row-map t, tail_rows-map t) (h, tail-IsTable xs y ys (tail_rows t) hs)

-- With fuel for every line, the loop writes a script from the one file to the other.
walk-old :
    (fuel : ℕ) (a b : List Text) (t : List (List ℕ))
    → length a + length b ≤ fuel
    → (old (walk fuel a b t) ≡ a) × (new (walk fuel a b t) ≡ b)
unfolding walk
walk-old zero [] [] t h = (refl, refl)
walk-old zero [] (y ∷ ys) t h = absurd (omega arith)
walk-old zero (x ∷ xs) b t h = absurd (omega arith)
walk-old (suc fuel) [] [] t h = (refl, refl)
walk-old (suc fuel) [] (y ∷ ys) t h =
    let (o, n) = walk-old fuel [] ys (map tail t) (omega arith) in (o, ap (λ l. y ∷ l) n)
walk-old (suc fuel) (x ∷ xs) [] t h =
    let (o, n) = walk-old fuel xs [] (tail_rows t) (omega arith) in (ap (λ l. x ∷ l) o, n)
walk-old (suc fuel) (x ∷ xs) (y ∷ ys) t h = elim (Bool-cases (text_eq x y)) [
  | inl same ↦
      let (o, n) = walk-old fuel xs ys (map tail (tail_rows t)) (omega arith) in
      rw same (ap (λ l. x ∷ l) o, ap₂ (λ z l. z ∷ l) (text_eq_sound x y same) n)
  | inr other ↦ elim (Bool-cases (leb (head (tail (head_row t))) (head (head_row (tail_rows t))))) [
    | inl down ↦
        let (o, n) = walk-old fuel xs (y ∷ ys) (tail_rows t) (omega arith) in
        rw (other, down) (ap (λ l. x ∷ l) o, n)
    | inr right ↦
        let (o, n) = walk-old fuel (x ∷ xs) ys (map tail t) (omega arith) in
        rw (other, right) (o, ap (λ l. y ∷ l) n)
  ]
]

walk-kept :
    (fuel : ℕ) (a b : List Text) (t : List (List ℕ))
    → length a + length b ≤ fuel
    → IsTable a b t
    → kept (walk fuel a b t) ≡ best a b
unfolding walk best IsTable IsRow
walk-kept zero [] b t h c = refl
walk-kept zero (x ∷ xs) b t h c = absurd (omega arith)
walk-kept (suc fuel) [] [] t h c = refl
walk-kept (suc fuel) [] (y ∷ ys) t h c =
    walk-kept fuel [] ys (map tail t) (omega arith) (tail-IsTable [] y ys t c)
walk-kept (suc fuel) (x ∷ xs) [] t h (_, c) =
    walk-kept fuel xs [] (tail_rows t) (omega arith) c ∙ best-nil xs
walk-kept (suc fuel) (x ∷ xs) (y ∷ ys) t h ((c, cs), ts) =
    let down = walk-kept fuel xs (y ∷ ys) (tail_rows t) (omega arith) ts in
    let right =
      walk-kept fuel (x ∷ xs) ys (map tail t) (omega arith)
        (tail-IsTable (x ∷ xs) y ys t ((c, cs), ts)) in
    let both =
      walk-kept fuel xs ys (map tail (tail_rows t)) (omega arith)
        (tail-IsTable xs y ys (tail_rows t) ts) in
    let cell_down =
      head-IsRow xs (y ∷ ys) (head_row (tail_rows t)) (head-IsTable xs (y ∷ ys) (tail_rows t) ts) in
    let cell_right = head-IsRow (x ∷ xs) ys _ cs in
    elim (Bool-cases (text_eq x y)) [
      | inl same ↦ rw same (omega (arith, both))
      | inr other ↦
          elim (Bool-cases (leb (head (tail (head_row t))) (head (head_row (tail_rows t))))) [
            | inl d ↦ rw (other, d) (ground arith)
            | inr r ↦ rw (other, r) (ground arith)
          ]
    ]

-- What `diff` prints is a script from the one file to the other: without the added lines it is the
-- old file, and without the removed ones the new file.
pub changes_of-old-new : (a b : List Text) → (old (changes_of a b) ≡ a) × (new (changes_of a b) ≡ b)
unfolding changes_of
changes_of-old-new a b = walk-old (length a + length b) a b (table a b) (omega arith)

-- Every line of a script is kept in both files or stands in one.
changes_lem : (ds : List Line) → length (old ds) + length (new ds) ≡ changes ds + 2 * kept ds
changes_lem [] = refl
changes_lem (keep l ∷ ds) = omega (arith, changes_lem ds)
changes_lem (remove l ∷ ds) = omega (arith, changes_lem ds)
changes_lem (add l ∷ ds) = omega (arith, changes_lem ds)

changes_of-kept : (a b : List Text) → kept (changes_of a b) ≡ best a b
unfolding changes_of
changes_of-kept a b =
    walk-kept (length a + length b) a b (table a b) (omega arith) (table-IsTable a b)

-- No script from the one file to the other removes and adds fewer lines than `diff` prints.
pub changes_of-shortest :
    (a b : List Text) (ds : List Line)
    → old ds ≡ a
    → new ds ≡ b
    → changes (changes_of a b) ≤ changes ds
changes_of-shortest a b ds o n =
    let (o', n') = changes_of-old-new a b in
    omega (
      arith,
      changes_lem ds,
      changes_lem (changes_of a b),
      ap length o,
      ap length n,
      ap length o',
      ap length n',
      kept-le ds,
      ap₂ best o n,
      changes_of-kept a b,
    )
