-- ===== src/Base/Dict.antt =====
-- A `BTreeMap<String, V>` as an association list in the order of its keys, each of which stands once.
pub mod Sorted
use mathlib.Core.Path.{◌≡◌, refl}
use mathlib.Core.Bool.{Bool, true, false}
use mathlib.Core.List.{List, [], ◌∷◌}
use mathlib.Core.Option.{Option, none, some}
use native.Mathlib.Omega.{arith}
use pve_compose.Base.Tests.{ltb, ◌==◌, if◌then◌else◌}
use pve_compose.Base.Texts.{Text, text_eq}

-- The order of `String`. Comparing code points gives the order of the UTF-8 bytes.
unfoldable pub text_lt : Text → Text → Bool
text_lt s [] = false
text_lt [] (d ∷ t) = true
text_lt (c ∷ s) (d ∷ t) = let rest = text_lt s t in if c == d then rest else ltb c d

abbrev pub Dict {ℓ} : Type ℓ → Type ℓ
Dict V = List (Text × V)

module _ {ℓ} {V : Type ℓ} where
  -- `m.get(k)`
  unfoldable pub lookup : Text → Dict V → Option V
  lookup k [] = none
  lookup k ((j, v) ∷ m) = if text_eq k j then some v else lookup k m

  -- `m.insert(k, v)`
  unfoldable pub insert : Text → V → Dict V → Dict V
  unfolding text_lt
  insert k v [] = (k, v) ∷ []
  insert k v ((j, w) ∷ m) =
      let later = (j, w) ∷ insert k v m in
      if text_eq k j then (k, v) ∷ m else if text_lt k j then (k, v) ∷ (j, w) ∷ m else later

  -- `m.remove(k)`
  unfoldable pub remove : Text → Dict V → Dict V
  remove k [] = []
  remove k ((j, w) ∷ m) = let rest = remove k m in if text_eq k j then m else (j, w) ∷ rest

  -- `m.entry(k).or_insert_with(|| v)`
  unfoldable pub or_insert : Text → V → Dict V → Dict V
  unfolding lookup insert
  or_insert k v m = elim (lookup k m) [ none ↦ insert k v m | some _ ↦ m ]

  pub lookup-insert :
      (j k : Text) (v : V) (m : Dict V)
      → lookup j (insert k v m) ≡ (if text_eq j k then some v else lookup j m)
  unfolding lookup insert
  lookup-insert j k v [] = refl
  lookup-insert j k v ((i, w) ∷ m) = ground (arith, lookup-insert j k v m)

  pub lookup-or_insert :
      (j k : Text) (v : V) (m : Dict V)
      → lookup k m ≡ none
      → lookup j (or_insert k v m) ≡ (if text_eq j k then some v else lookup j m)
  unfolding or_insert
  lookup-or_insert j k v m h = rw (h, or_insert) (lookup-insert j k v m)

  pub or_insert_present :
      (k : Text) (v w : V) (m : Dict V) → lookup k m ≡ some w → or_insert k v m ≡ m
  unfolding or_insert
  or_insert_present k v w m h = rw (h, or_insert) refl

  -- No key stands twice.
  abbrev pub HasDistinctKeys : Dict V → Type ℓ
  HasDistinctKeys [] = Unit
  HasDistinctKeys ((k, _) ∷ m) = (lookup k m ≡ none) × HasDistinctKeys m
