-- ===== src/Base/Texts.antt =====
-- Rust strings as lists of code points, and the methods of `str` and `char` that the program calls.
use Prim.Native.Nat.{ℕ, ◌+◌, ◌-◌, ◌≤◌}
use Prim.Native.Char.{code}
use Prim.Native.String.{String}
use mathlib.Core.Path.{◌≡◌, refl, ap₂}
use mathlib.Core.Logic.{◌≢◌, inl, inr, ite, dite, if_neg}
use mathlib.Core.Bool.{Bool, true, false, ◌&&◌, ◌||◌}
use mathlib.Core.List.{
  List, [], ◌∷◌, ◌++◌, reverse, reverse_aux, reverse-reverse, cons-ne-nil, nil≢cons, cons-eq-cons,
}
use mathlib.Core.Option.{Option, none, some}
use native.Mathlib.Decide.{ℕ_discrete}
use native.Mathlib.Omega.{arith}
use pve_compose.Base.Tests.{Bool-cases, Option-cases, leb, ◌==◌, if◌then◌else◌}
use pve_compose.Base.Lists.{All, any}

abbrev pub Text : Type 0
Text = List ℕ

-- The code points of a literal.
abbrev pub codes : String → Text
codes String.[] = []
codes (String.◌∷◌ c s) = code c ∷ codes s

unfoldable pub text_dec : Discrete Text
unfolding ℕ_discrete
text_dec [] [] = yes refl
text_dec [] (c ∷ t) = no nil≢cons
text_dec (c ∷ s) [] = no (cons-ne-nil c s)
text_dec (c ∷ s) (d ∷ t) =
    let rest = text_dec s t in
    dite (ℕ_discrete c d)
      (λ p. dite rest (λ q. yes (ap₂ ◌∷◌ p q)) (λ n. no (λ e. n (cons-eq-cons.0 e).1)))
      (λ n. no (λ e. n (cons-eq-cons.0 e).0))

-- `==` on strings. A split on it yields the equation or its negation.
abbrev pub text_eq : Text → Text → Bool
text_eq s t = ite (text_dec s t) true false

pub text_eq_refl : (s : Text) → text_eq s s ≡ true
text_eq_refl s = ground arith

pub text_eq_sound : (s t : Text) → text_eq s t ≡ true → s ≡ t
text_eq_sound s t h = ground arith

pub text_eq_ne : (s t : Text) → s ≢ t → text_eq s t ≡ false
text_eq_ne s t h = if_neg _ h true false

-- `option == Some(text)`
abbrev pub is_text : Option Text → Text → Bool
is_text none t = false
is_text (some s) t = text_eq s t

-- `s.strip_prefix(p)`
unfoldable pub strip_prefix : Text → Text → Option Text
strip_prefix s [] = some s
strip_prefix [] (d ∷ p) = none
strip_prefix (c ∷ s) (d ∷ p) = if c == d then strip_prefix s p else none

abbrev pub is_some {ℓ} : {A : Type ℓ} → Option A → Bool
is_some none = false
is_some (some a) = true

-- `s.starts_with(p)`
abbrev pub starts_with : Text → Text → Bool
starts_with s p = is_some (strip_prefix s p)

pub strip_prefix-append : (p s : Text) → strip_prefix (p ++ s) p ≡ some s
unfolding strip_prefix
strip_prefix-append [] s = refl
strip_prefix-append (c ∷ p) s = ground (arith, strip_prefix-append p s)

pub strip_prefix_sound : (s p r : Text) → strip_prefix s p ≡ some r → s ≡ p ++ r
unfolding strip_prefix
strip_prefix_sound s [] r h = ground arith
strip_prefix_sound [] (d ∷ p) r h = ground arith
strip_prefix_sound (c ∷ s) (d ∷ p) r h = ground (arith, strip_prefix_sound s p r)

pub starts_with_sound :
    (s p : Text) → starts_with s p ≡ true → (r : Text) × (strip_prefix s p ≡ some r) × (s ≡ p ++ r)
starts_with_sound s p h = elim (Option-cases (strip_prefix s p)) [
  | inl missing ↦ absurd (no_prefix (rw missing at h))
  | inr (r, e) ↦ (r, e, strip_prefix_sound s p r e)
]
  where
    no_prefix : false ≡ true → ⊥
    no_prefix e = cc

-- `s.contains(c)`
abbrev pub contains_char : ℕ → Text → Bool
contains_char c s = any (λ d. d == c) s

-- `s.contains(t)`
unfoldable pub contains : Text → Text → Bool
contains [] t = starts_with [] t
contains (c ∷ s) t = starts_with (c ∷ s) t || contains s t

-- No code point of the text is `c`.
abbrev pub Lacks : ℕ → Text → Type 0
Lacks c = All (λ d. d ≢ c)

-- `s.split(c)`: at least one part, also for the empty text.
module _ (c : ℕ) where
  abbrev pub push_head : ℕ → List Text → List Text
  push_head d [] = (d ∷ []) ∷ []
  push_head d (p ∷ ps) = (d ∷ p) ∷ ps

  unfoldable pub split : Text → List Text
  split [] = [] ∷ []
  split (d ∷ s) = let rest = split s in if d == c then [] ∷ rest else push_head d rest

  -- `s.split_once(c)`
  abbrev before_head : ℕ → Option (Text × Text) → Option (Text × Text)
  before_head d none = none
  before_head d (some (p, r)) = some (d ∷ p, r)

  unfoldable pub split_once : Text → Option (Text × Text)
  split_once [] = none
  split_once (d ∷ s) =
      let rest = split_once s in if d == c then some ([], s) else before_head d rest

  pub split_once_sound : (s p r : Text) → split_once s ≡ some (p, r) → s ≡ p ++ c ∷ r
  unfolding split_once
  split_once_sound [] p r h = absurd (cc h)
  split_once_sound (d ∷ s) p r h = elim (Bool-cases (d == c)) [
    | inl cut ↦ ground arith
    | inr on ↦ elim (Option-cases (split_once s)) [
      | inl uncut ↦ absurd (cc (rw (on, uncut) at h))
      | inr (pr, e) ↦ ground (arith, split_once_sound s pr.0 pr.1)
    ]
  ]

  pub split_once-append : (p r : Text) → Lacks c p → split_once (p ++ c ∷ r) ≡ some (p, r)
  unfolding split_once
  split_once-append [] r h = ground arith
  split_once-append (d ∷ p) r (h, hs) = rw (split_once-append p r hs) (ground arith)

  -- `s.rsplit_once(c)`
  abbrev last_cut : ℕ → Text → Option (Text × Text) → Option (Text × Text)
  last_cut d s none = if d == c then some ([], s) else none
  last_cut d s (some (p, r)) = some (d ∷ p, r)

  unfoldable pub rsplit_once : Text → Option (Text × Text)
  rsplit_once [] = none
  rsplit_once (d ∷ s) = last_cut d s (rsplit_once s)

-- `parts.join(sep)`
unfoldable pub join : Text → List Text → Text
join sep [] = []
join sep (p ∷ []) = p
join sep (p ∷ q ∷ ps) = p ++ (sep ++ join sep (q ∷ ps))

abbrev pub is_ascii_digit : ℕ → Bool
is_ascii_digit c = leb b'0' c && leb c b'9'

abbrev pub is_ascii_lowercase : ℕ → Bool
is_ascii_lowercase c = leb b'a' c && leb c b'z'

abbrev pub is_ascii_uppercase : ℕ → Bool
is_ascii_uppercase c = leb b'A' c && leb c b'Z'

abbrev pub is_ascii_alphanumeric : ℕ → Bool
is_ascii_alphanumeric c = is_ascii_digit c || is_ascii_lowercase c || is_ascii_uppercase c

abbrev pub to_ascii_lowercase : ℕ → ℕ
to_ascii_lowercase c = if is_ascii_uppercase c then c + 32 else c

abbrev pub to_ascii_uppercase : ℕ → ℕ
to_ascii_uppercase c = if is_ascii_lowercase c then c - 32 else c

-- `char::is_whitespace`, the code points with Unicode's White_Space property.
unfoldable pub is_whitespace : ℕ → Bool
is_whitespace c =
    leb 9 c && leb c 13
    || c == 32
    || c == 0x85
    || c == 0xa0
    || c == 0x1680
    || leb 0x2000 c && leb c 0x200a
    || c == 0x2028
    || c == 0x2029
    || c == 0x202f
    || c == 0x205f
    || c == 0x3000

trim_start : Text → Text
unfolding is_whitespace
trim_start [] = []
trim_start (c ∷ s) = elim (is_whitespace c) [ true ↦ trim_start s | false ↦ c ∷ s ]

-- `s.trim()`
unfoldable pub trim : Text → Text
unfolding trim_start
trim s = reverse (trim_start (reverse (trim_start s)))

-- A printable ASCII character other than the space.
abbrev pub IsGraphic : ℕ → Type 0
IsGraphic c = (33 ≤ c) × (c ≤ 126)

not_whitespace : (c : ℕ) → IsGraphic c → is_whitespace c ≡ false
unfolding is_whitespace
not_whitespace c h = ground arith

trim_start_graphic : (s : Text) → All IsGraphic s → trim_start s ≡ s
unfolding trim_start
trim_start_graphic [] _ = refl
trim_start_graphic (c ∷ s) (h, _) = rw (not_whitespace c h, trim_start) refl

All-reverse_aux : (P : ℕ → Type 0) (s t : Text) → All P s → All P t → All P (reverse_aux s t)
All-reverse_aux P [] t _ k = k
All-reverse_aux P (c ∷ s) t (h, hs) k = All-reverse_aux P s (c ∷ t) hs (h, k)

-- A text with nothing to trim is left as it is.
pub trim_graphic : (s : Text) → All IsGraphic s → trim s ≡ s
unfolding trim
trim_graphic s h =
    rw
      (trim_start_graphic s h, trim_start_graphic (reverse s) (All-reverse_aux IsGraphic s [] h tt))
      (reverse-reverse s)
