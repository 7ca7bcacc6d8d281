-- ===== src/Prompt/Tests.antt =====
-- A user who answers at the third time.
use pve_compose.Base.{◌≡◌, refl, true, ok, List, [], ◌∷◌, Text, codes, Result, Bool, ℕ}
use pve_compose.Prompt.{PromptError, choose, yes_no}

abbrev lines : List Text
lines = codes "0\n" ∷ codes "local\n" ∷ codes " 2\n" ∷ codes "1\n" ∷ []

chosen : Path (Result PromptError ℕ) (choose 3 lines) (ok 1)
unfolding choose pve_compose.Base.Decimal.read pve_compose.Base.trim
chosen = refl

agreed : Path (Result PromptError Bool) (yes_no true (codes "\n" ∷ [])) (ok true)
unfolding yes_no pve_compose.Base.trim pve_compose.Base.text_dec
agreed = refl
