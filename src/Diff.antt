-- ===== src/Diff.antt =====
-- src/ops/diff.rs: `line_diff`. The indexes i and j are the lines of both files that are left, and
-- the table is the part of `lcs` from row i and column j on.
pub mod Shortest
pub mod Report
pub mod Tests
use Prim.Native.Nat.{max}
use pve_compose.Base.{
  ℕ, zero, suc, ◌+◌, Bool, List, [], ◌∷◌, ◌++◌, map, Text, codes, text_eq, length, leb, starts_with,
  ◌==◌, ◌&&◌, if◌then◌else◌,
}

push : ℕ → List Text → List Text
push c [] = (c ∷ []) ∷ []
push c (l ∷ ls) = (c ∷ l) ∷ ls

-- `str::lines`: a line ends at "\n" or "\r\n", and a last line need not end.
pub lines : Text → List Text
lines [] = []
lines (c ∷ s) =
    let rest = lines s in
    if c == 10
    then [] ∷ rest
    else if (c == 13) && starts_with s (codes "\n")
    then rest
    else push c rest

-- A row and a table cell out of range are not read.
abbrev pub head : List ℕ → ℕ
head [] = 0
head (n ∷ _) = n

abbrev pub tail : List ℕ → List ℕ
tail [] = []
tail (_ ∷ ns) = ns

abbrev pub head_row : List (List ℕ) → List ℕ
head_row [] = []
head_row (r ∷ _) = r

abbrev pub tail_rows : List (List ℕ) → List (List ℕ)
tail_rows [] = []
tail_rows (_ ∷ rs) = rs

-- Row i of `lcs`, from the row below it.
pub row : Text → List Text → List ℕ → List ℕ
row x [] below = 0 ∷ []
row x (y ∷ ys) below =
    let right = row x ys (tail below) in
    (if text_eq x y then head (tail below) + 1 else max (head below) (head right)) ∷ right

pub table : List Text → List Text → List (List ℕ)
table [] b = (0 ∷ map (λ _. 0) b) ∷ []
table (x ∷ xs) b = let below = table xs b in row x b (head_row below) ∷ below

pub data Line : Type 0 where
  keep : (line : Text) → Line
  remove : (line : Text) → Line
  add : (line : Text) → Line

-- The `while` loop, which takes a line of either file or of both in each round.
pub walk : ℕ → List Text → List Text → List (List ℕ) → List Line
walk zero a b t = []
walk (suc fuel) [] [] t = []
walk (suc fuel) [] (y ∷ ys) t = add y ∷ walk fuel [] ys (map tail t)
walk (suc fuel) (x ∷ xs) [] t = remove x ∷ walk fuel xs [] (tail_rows t)
walk (suc fuel) (x ∷ xs) (y ∷ ys) t =
    let both = walk fuel xs ys (map tail (tail_rows t)) in
    let down = walk fuel xs (y ∷ ys) (tail_rows t) in
    let right = walk fuel (x ∷ xs) ys (map tail t) in
    if text_eq x y
    then keep x ∷ both
    else if leb (head (tail (head_row t))) (head (head_row (tail_rows t)))
    then remove x ∷ down
    else add y ∷ right

pub changes_of : List Text → List Text → List Line
changes_of a b = walk (length a + length b) a b (table a b)

print : List Line → Text
print [] = []
print (keep l ∷ ls) = codes "  " ++ l ++ codes "\n" ++ print ls
print (remove l ∷ ls) = codes "- " ++ l ++ codes "\n" ++ print ls
print (add l ∷ ls) = codes "+ " ++ l ++ codes "\n" ++ print ls

unfoldable pub line_diff : Text → Text → Text
unfolding lines push changes_of walk table row print
line_diff a b = print (changes_of (lines a) (lines b))
