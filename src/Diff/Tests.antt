-- ===== src/Diff/Tests.antt =====
-- `line_diff` at concrete files.
use pve_compose.Base.{◌≤◌, List, [], ◌∷◌, Text, ◌≡◌, refl, codes, strip_prefix, text_dec}
use pve_compose.Diff.{remove, add, changes_of, line_diff}
use pve_compose.Diff.Shortest.{old, new, changes, changes_of-old-new, changes_of-shortest}

prefixed : line_diff (codes "a\nb\r\nc") (codes "a\nx\nc\n") ≡ codes "  a\n- b\n+ x\n  c\n"
unfolding line_diff strip_prefix text_dec
prefixed = refl

abbrev before : List Text
before = codes "a" ∷ codes "b" ∷ []

abbrev after : List Text
after = codes "b" ∷ codes "c" ∷ []

changes_of-old-new_example :
    (old (changes_of before after) ≡ before) × (new (changes_of before after) ≡ after)
changes_of-old-new_example = changes_of-old-new before after

changes_of-shortest_example :
    changes (changes_of before after)
    ≤ changes (remove (codes "a") ∷ remove (codes "b") ∷ add (codes "b") ∷ add (codes "c") ∷ [])
changes_of-shortest_example =
    changes_of-shortest before after
      (remove (codes "a") ∷ remove (codes "b") ∷ add (codes "b") ∷ add (codes "c") ∷ []) refl refl
