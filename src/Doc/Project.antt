-- ===== src/Doc/Project.antt =====
-- src/doc.rs: compose's project names, and the one made of a hostname.
use native.Mathlib.Omega.{arith}
use pve_compose.Base.{
  ℕ, ◌≡◌, refl, Bool, true, false, ◌||◌, ◌&&◌, [], ◌∷◌, map, Text, codes, all, is_empty,
  is_ascii_lowercase, is_ascii_uppercase, is_ascii_digit, to_ascii_lowercase, ◌==◌, if◌then◌else◌,
  Bool-cases, inl, inr,
}

abbrev is_head : ℕ → Bool
is_head c = is_ascii_lowercase c || is_ascii_digit c

abbrev is_tail : ℕ → Bool
is_tail c = is_ascii_lowercase c || is_ascii_digit c || c == b'-' || c == b'_'

abbrev pub is_project_name : Text → Bool
is_project_name [] = false
is_project_name (c ∷ s) = is_head c && all is_tail s

abbrev pub project_char : ℕ → ℕ
project_char c =
    if is_ascii_uppercase c
    then to_ascii_lowercase c
    else if is_ascii_lowercase c || is_ascii_digit c || c == b'-' || c == b'_'
    then c
    else b'-'

-- `while out.starts_with(|c| !(..)) { out.remove(0); }`
pub trim_head : Text → Text
trim_head [] = []
trim_head (c ∷ s) = let rest = trim_head s in if is_head c then c ∷ s else rest

unfoldable pub project_name_from : Text → Text
unfolding trim_head
project_name_from hostname =
    let out = trim_head (map project_char hostname) in if is_empty out then codes "stack" else out

project_char-is_tail : (c : ℕ) → is_tail (project_char c) ≡ true
project_char-is_tail c = ground arith

all-is_tail : (s : Text) → all is_tail (map project_char s) ≡ true
all-is_tail [] = refl
all-is_tail (c ∷ s) = rw (project_char-is_tail c) (all-is_tail s)

trim_head-is_project_name :
    (s : Text)
    → all is_tail s ≡ true
    → is_project_name (if is_empty (trim_head s) then codes "stack" else trim_head s) ≡ true
unfolding trim_head
trim_head-is_project_name [] h = refl
trim_head-is_project_name (c ∷ s) h = elim (Bool-cases (is_head c)) [
  | inl head ↦ rw (head, head) (ground arith)
  | inr other ↦ rw other (trim_head-is_project_name s (ground arith))
]

-- Whatever the hostname, the name made of it is one that compose takes.
pub project_name_from-is_project_name :
    (hostname : Text) → is_project_name (project_name_from hostname) ≡ true
unfolding project_name_from
project_name_from-is_project_name hostname =
    trim_head-is_project_name (map project_char hostname) (all-is_tail hostname)
