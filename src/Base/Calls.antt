-- ===== src/Base/Calls.antt =====
-- A function as the calls that it makes in their order, each of which may fail and ends it.
use mathlib.Core.Path.{◌≡◌, sym, ◌∙◌}
use mathlib.Core.Logic.{inl, inr}
use mathlib.Core.Bool.{Bool, true, false}
use mathlib.Core.List.{List, [], ◌∷◌, ◌++◌, append_assoc, append-nil}
use pve_compose.Base.Tests.{if◌then◌else◌, Bool-cases}

-- `runs` says of the calls made whether the last one succeeded. The result is whether all did, and
-- the calls.
module _ {A : Type 0} (runs : List A → Bool) where
  unfoldable pub run : (made : List A) → List A → Bool × List A
  run made [] = (true, made)
  run made (a ∷ todo) =
      let made' = made ++ a ∷ [] in
      let rest = run made' todo in if runs made' then rest else (false, made')

  -- Each of these calls, made behind `made`, has succeeded.
  abbrev pub AllSucceed : (made calls : List A) → Type 0
  AllSucceed made [] = Unit
  AllSucceed made (a ∷ calls) = (runs (made ++ a ∷ []) ≡ true) × AllSucceed (made ++ a ∷ []) calls

  -- A run makes the calls from the first on: all of them, or those before some call that it leaves.
  pub run-prefix :
      (made todo : List A) → (rest : List A) × ((run made todo).1 ++ rest ≡ made ++ todo)
  unfolding run
  run-prefix made [] = ([], append-nil made ∙ sym (append-nil made))
  run-prefix made (a ∷ todo) = elim (Bool-cases (runs (made ++ a ∷ []))) [
    | inl ran ↦
        let (rest, e) = run-prefix (made ++ a ∷ []) todo in
        (rest, rw ran (e ∙ append_assoc made (a ∷ []) todo))
    | inr failed ↦ (todo, rw failed (append_assoc made (a ∷ []) todo))
  ]
