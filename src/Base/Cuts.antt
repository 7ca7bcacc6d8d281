-- ===== src/Base/Cuts.antt =====
-- Texts cut at a character.
use mathlib.Core.Path.{◌≡◌, refl, ap, ◌∙◌}
use mathlib.Core.List.{List, [], ◌∷◌, ◌++◌}
use Prim.Native.Nat.{ℕ}
use native.Mathlib.Omega.{arith}
use mathlib.Core.Logic.{inl, inr}
use pve_compose.Base.Lists.{All}
use pve_compose.Base.Tests.{◌==◌, Bool-cases}
use pve_compose.Base.Texts.{Text, Lacks, split, push_head, join}

module _ (c : ℕ) where
  -- A text without the character is one part, and the parts behind one are those of the rest.
  pub split_single : (p : Text) → Lacks c p → split c p ≡ p ∷ []
  unfolding split
  split_single [] h = refl
  split_single (d ∷ p) (h, hs) = rw (split_single p hs) (ground arith)

  pub split_first : (p s : Text) → Lacks c p → split c (p ++ c ∷ s) ≡ p ∷ split c s
  unfolding split
  split_first [] s h = ground arith
  split_first (d ∷ p) s (h, hs) = rw (split_first p s hs) (ground arith)

  -- Joined texts are cut back at the separator.
  pub split-join :
      (p : Text) (ps : List Text)
      → All (Lacks c) (p ∷ ps)
      → split c (join (c ∷ []) (p ∷ ps)) ≡ p ∷ ps
  unfolding join
  split-join p [] (h, _) = split_single p h
  split-join p (q ∷ ps) (h, hs) =
      split_first p (join (c ∷ []) (q ∷ ps)) h ∙ ap (λ t. p ∷ t) (split-join q ps hs)

  -- Every second part: what stands between an opening and a closing one.
  abbrev pub enclosed : List Text → List Text
  enclosed [] = []
  enclosed (p ∷ []) = []
  enclosed (p ∷ q ∷ ps) = q ∷ enclosed ps

  enclosed-push_head : (d : ℕ) (ps : List Text) → enclosed (push_head c d ps) ≡ enclosed ps
  enclosed-push_head d [] = refl
  enclosed-push_head d (p ∷ []) = refl
  enclosed-push_head d (p ∷ q ∷ ps) = refl

  -- A text in front that lacks the character changes none of them.
  pub enclosed_behind :
      (p s : Text) → Lacks c p → enclosed (split c (p ++ s)) ≡ enclosed (split c s)
  unfolding split
  enclosed_behind [] s h = refl
  enclosed_behind (d ∷ p) s (h, hs) = elim (Bool-cases (d == c)) [
    | inl same ↦ absurd (ground arith)
    | inr other ↦ rw other (enclosed-push_head d (split c (p ++ s)) ∙ enclosed_behind p s hs)
  ]

  pub enclosed_first :
      (p q s : Text)
      → Lacks c p
      → Lacks c q
      → enclosed (split c (p ++ c ∷ (q ++ c ∷ s))) ≡ q ∷ enclosed (split c s)
  enclosed_first p q s hp hq =
      ap enclosed (split_first p (q ++ c ∷ s) hp ∙ ap (λ ps. p ∷ ps) (split_first q s hq))
