-- ===== src/Stack/Ps.antt =====
-- src/stack.rs: `ps`, which reads either form of what compose prints.
use pve_compose.Base.{
  Option, none, some, List, [], ◌∷◌, Text, is_empty, trim, if◌then◌else◌, Option,
}
use pve_compose.Diff.{lines}

-- The readers are serde's: of an array, and of one object.
module _ {C : Type 0} (from_array : Text → Option (List C)) (from_object : Text → Option C) where
  prepend : Option C → Option (List C) → Option (List C)
  prepend (some c) (some cs) = some (c ∷ cs)
  prepend _ _ = none

  from_lines : List Text → Option (List C)
  from_lines [] = some []
  from_lines (l ∷ ls) =
      let line = trim l in
      let rest = from_lines ls in if is_empty line then rest else prepend (from_object line) rest

  or_lines : Text → Option (List C) → Option (List C)
  or_lines text none = from_lines (lines text)
  or_lines text (some cs) = some cs

  -- `out` is what the command printed; `none` is the error.
  pub ps : (out : Text) → Option (List C)
  ps out = let text = trim out in if is_empty text then some [] else or_lines text (from_array text)
