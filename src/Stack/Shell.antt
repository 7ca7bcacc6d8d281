-- ===== src/Stack/Shell.antt =====
-- How a shell reads the words that `passthrough` of src/stack.rs writes.
use native.Mathlib.Omega.{arith}
use pve_compose.Base.{
  ℕ, ◌≡◌, refl, ◌∙◌, ap, subst, Bool, true, false, ◌&&◌, not, Option, none, some, List, [], ◌∷◌,
  ◌++◌, map, append_assoc, append-nil, Text, codes, join, all, any, is_empty, ◌==◌, if◌then◌else◌,
  Bool-cases, inl, inr,
}
use pve_compose.Stack.{is_safe, escape, shell_quote}

-- The POSIX shell's words, for a line of words only: outside quotes, a character that a shell treats
-- in some way of its own is refused.
pub data Mode : Type 0 where
  between : Mode
  unquoted : Mode
  quoted : Mode
  escaped : Mode

abbrev is_special : ℕ → Bool
is_special c = any (λ d. c == d) (codes "|&;<>()$`\"\t\n\r*?[]#~%{}!^")

extend : ℕ → Option (List Text) → Option (List Text)
extend c none = none
extend c (some []) = none
extend c (some (w ∷ ws)) = some ((c ∷ w) ∷ ws)

new_word : Option (List Text) → Option (List Text)
new_word none = none
new_word (some ws) = some ([] ∷ ws)

pub scan : Mode → Text → Option (List Text)
scan between [] = some []
scan unquoted [] = some ([] ∷ [])
scan quoted [] = none
scan escaped [] = none
scan quoted (c ∷ s) =
    let out = scan unquoted s in let on = extend c (scan quoted s) in if c == 39 then out else on
scan escaped (c ∷ s) = extend c (scan unquoted s)
scan between (c ∷ s) =
    let skip = scan between s in
    let q = scan quoted s in
    let e = scan escaped s in
    let on = extend c (scan unquoted s) in
    if c == 32
    then skip
    else if c == 39
    then q
    else if c == 92
    then e
    else if is_special c
    then none
    else on
scan unquoted (c ∷ s) =
    let skip = new_word (scan between s) in
    let q = scan quoted s in
    let e = scan escaped s in
    let on = extend c (scan unquoted s) in
    if c == 32
    then skip
    else if c == 39
    then q
    else if c == 92
    then e
    else if is_special c
    then none
    else on

scan-escape :
    (s rest : Text) (w : Text) (ws : List Text)
    → scan unquoted rest ≡ some (w ∷ ws)
    → scan quoted (escape s ++ 39 ∷ rest) ≡ some ((s ++ w) ∷ ws)
unfolding scan escape extend
scan-escape [] rest w ws h = h
scan-escape (c ∷ s) rest w ws h =
    let on = scan-escape s rest w ws h in
    elim (Bool-cases (c == 39)) [
      | inl quote ↦ rw (quote, on) (ground arith)
      | inr other ↦ rw (other, on, other) refl
    ]

safe_not_special :
    (c : ℕ)
    → is_safe c ≡ true
    → ((c == 32) ≡ false) × ((c == 39) ≡ false) × ((c == 92) ≡ false) × (is_special c ≡ false)
safe_not_special c h = (ground arith, ground arith, ground arith, ground arith)

scan-safe :
    (s rest w : Text) (ws : List Text)
    → all is_safe s ≡ true
    → scan unquoted rest ≡ some (w ∷ ws)
    → scan unquoted (s ++ rest) ≡ some ((s ++ w) ∷ ws)
unfolding scan extend
scan-safe [] rest w ws safe h = h
scan-safe (c ∷ s) rest w ws safe h =
    let (space, quote, backslash, special) = safe_not_special c (ground arith) in
    let on = scan-safe s rest w ws (ground arith) h in
    rw (space, quote, backslash, special, on) refl

-- A word's text, then whatever ends the word.
between-safe :
    (s rest w : Text) (ws : List Text)
    → (not (is_empty s) && all is_safe s) ≡ true
    → scan unquoted rest ≡ some (w ∷ ws)
    → scan between (s ++ rest) ≡ some ((s ++ w) ∷ ws)
unfolding scan extend
between-safe [] rest w ws safe h = absurd (cc safe)
between-safe (c ∷ s) rest w ws safe h =
    let (space, quote, backslash, special) = safe_not_special c (ground arith) in
    let on = scan-safe s rest w ws (ground arith) h in
    rw (space, quote, backslash, special, on) refl

scan-shell_quote :
    (s rest : Text) (ws : List Text)
    → scan unquoted rest ≡ some ([] ∷ ws)
    → scan between (shell_quote s ++ rest) ≡ some (s ∷ ws)
unfolding shell_quote scan
scan-shell_quote s rest ws h =
    let whole = ap (λ t. some (t ∷ ws)) (append-nil s) in
    elim (Bool-cases (not (is_empty s) && all is_safe s)) [
      | inl safe ↦ rw safe (between-safe s rest [] ws safe h ∙ whole)
      | inr other ↦
          rw (other, append_assoc (escape s) (39 ∷ []) rest) (scan-escape s rest [] ws h ∙ whole)
    ]

-- The words that a shell reads in the arguments of `passthrough` are the arguments themselves,
-- whatever characters they hold.
pub scan-shell_quotes :
    (args : List Text) → scan between (join (codes " ") (map shell_quote args)) ≡ some args
unfolding join scan new_word
scan-shell_quotes [] = refl
scan-shell_quotes (a ∷ []) =
    subst (λ t. scan between t ≡ some (a ∷ [])) (append-nil (shell_quote a))
      (scan-shell_quote a [] [] refl)
scan-shell_quotes (a ∷ b ∷ args) =
    scan-shell_quote a (32 ∷ join (codes " ") (map shell_quote (b ∷ args))) (b ∷ args)
      (ap new_word (scan-shell_quotes (b ∷ args)))

-- The same behind the name of a program.
pub scan-program :
    (program : Text) (args : List Text)
    → (not (is_empty program) && all is_safe program) ≡ true
    → scan between (program ++ 32 ∷ join (codes " ") (map shell_quote args)) ≡ some (program ∷ args)
unfolding scan new_word
scan-program program args safe =
    between-safe program (32 ∷ join (codes " ") (map shell_quote args)) [] args safe
      (ap new_word (scan-shell_quotes args))
    ∙ ap (λ t. some (t ∷ args)) (append-nil program)
