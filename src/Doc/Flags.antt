-- ===== src/Doc/Flags.antt =====
-- src/doc.rs: booleans in both spellings.
use pve_compose.Base.{
  ℕ, Bool, true, false, Option, none, some, List, [], ◌∷◌, Text, codes, text_eq, trim, any, ◌==◌,
  if◌then◌else◌,
}
use pve_compose.Spec.Yaml.{is_null, Value, bool, number, string}

abbrev one_of : Text → List Text → Bool
one_of s = any (λ t. text_eq s t)

flag_of_text : Text → Option Bool
flag_of_text s =
    if one_of s (codes "1" ∷ codes "true" ∷ codes "yes" ∷ codes "on" ∷ [])
    then some true
    else if one_of s (codes "0" ∷ codes "false" ∷ codes "no" ∷ codes "off" ∷ [])
    then some false
    else none

flag_of_number : Option ℕ → Option Bool
flag_of_number none = none
flag_of_number (some i) = if i == 0 then some false else if i == 1 then some true else none

unfoldable pub flag_of : Value → Option Bool
unfolding flag_of_text flag_of_number
flag_of (bool b) = some b
flag_of (number n) = flag_of_number n.as_i64
flag_of (string s) = flag_of_text (trim s)
flag_of _ = none

-- `null` is no flag; `none` outside is the error.
abbrev pub flag_or_error : Option Bool → Option (Option Bool)
flag_or_error none = none
flag_or_error (some b) = some (some b)

pub flag_opt : Value → Option (Option Bool)
flag_opt v = if is_null v then some none else flag_or_error (flag_of v)
