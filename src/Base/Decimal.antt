-- ===== src/Base/Decimal.antt =====
-- Unsigned integers in decimal: what `format!("{n}")` writes and what `parse::<u32>()` reads.
use Prim.Native.Nat.{ℕ, zero, suc, ◌+◌, ◌-◌, ◌*◌, ◌/◌, ◌%◌, ◌^◌, ◌<◌}
use mathlib.Core.Path.{◌≡◌, refl, ◌∙◌}
use mathlib.Core.Logic.{◌≢◌, inl, inr}
use mathlib.Core.Bool.{true}
use mathlib.Core.List.{[], ◌∷◌, ◌++◌, concat-ne-nil, cons-ne-nil}
use mathlib.Core.Option.{Option, none, some}
use native.Mathlib.Omega.{arith}
use pve_compose.Base.Tests.{ltb, ◌==◌, if◌then◌else◌, Bool-cases}
use pve_compose.Base.Lists.{All, All-append}
use pve_compose.Base.Texts.{Text, is_ascii_digit}

-- The digits of `n`, with a round of fuel for each.
digits : ℕ → ℕ → Text
digits zero n = []
digits (suc f) n =
    let more = digits f (n / 10) ++ (b'0' + n % 10) ∷ [] in
    if ltb n 10 then (b'0' + n) ∷ [] else more

-- `n.to_string()`. A number has fewer digits than `n + 1`.
unfoldable pub show : ℕ → Text
unfolding digits
show n = digits (suc n) n

-- `from_str_radix(_, 10)` on a type that holds the numbers below `bound`.
read_digits : ℕ → ℕ → Text → Option ℕ
read_digits bound acc [] = some acc
read_digits bound acc (c ∷ s) =
    let acc' = acc * 10 + (c - b'0') in
    let rest = read_digits bound acc' s in
    if is_ascii_digit c then if ltb acc' bound then rest else none else none

-- Rust takes one leading `+`, and refuses a text with no digit.
unfoldable pub read : ℕ → Text → Option ℕ
unfolding read_digits
read bound [] = none
read bound (c ∷ []) = read_digits bound 0 (c ∷ [])
read bound (c ∷ d ∷ s) = read_digits bound 0 (if c == b'+' then d ∷ s else c ∷ d ∷ s)

abbrev pub u32_bound : ℕ
u32_bound = 2 ^ 32

abbrev pub u64_bound : ℕ
u64_bound = 2 ^ 64

-- Every code point is an ASCII digit.
abbrev pub AllDigits : Text → Type 0
AllDigits = All (λ c. is_ascii_digit c ≡ true)

digits-AllDigits : (f n : ℕ) → AllDigits (digits f n)
unfolding digits
digits-AllDigits zero n = tt
digits-AllDigits (suc f) n = elim (Bool-cases (ltb n 10)) [
  | inl small ↦ rw small (ground arith, tt)
  | inr large ↦
      rw large (All-append _ (digits f (n / 10)) _ (digits-AllDigits f (n / 10)) (ground arith, tt))
]

pub show-AllDigits : (n : ℕ) → AllDigits (show n)
unfolding show
show-AllDigits n = digits-AllDigits (suc n) n

module _ (bound : ℕ) where
  abbrev read_more : Text → Option ℕ → Option ℕ
  read_more t none = none
  read_more t (some acc) = read_digits bound acc t

  read_digits-append :
      (s t : Text) (acc : ℕ)
      → read_digits bound acc (s ++ t) ≡ read_more t (read_digits bound acc s)
  unfolding read_digits
  read_digits-append [] t acc = refl
  read_digits-append (c ∷ s) t acc = ground (arith, read_digits-append s t (acc * 10 + (c - b'0')))

  read_digits-digits : (f n : ℕ) → n < f → n < bound → read_digits bound 0 (digits f n) ≡ some n
  unfolding digits
  read_digits-digits zero n h k = absurd (omega arith)
  read_digits-digits (suc f) n h k = elim (Bool-cases (ltb n 10)) [
    | inl small ↦ rw small (unfold read_digits in ground arith)
    | inr large ↦
        rw (large, read_digits-append (digits f (n / 10)) ((b'0' + n % 10) ∷ []) 0)
          (rw (read_digits-digits f (n / 10) (ground arith) (ground arith))
            (unfold read_digits in ground arith))
  ]

  read-read_digits : (s : Text) → s ≢ [] → AllDigits s → read bound s ≡ read_digits bound 0 s
  unfolding read
  read-read_digits [] h _ = absurd (h refl)
  read-read_digits (c ∷ []) h _ = refl
  read-read_digits (c ∷ d ∷ s) h (k, _) = ground arith

digits-ne-nil : (f n : ℕ) → digits (suc f) n ≢ []
unfolding digits
digits-ne-nil f n = elim (Bool-cases (ltb n 10)) [
  | inl small ↦ rw small (cons-ne-nil _ _)
  | inr large ↦ rw large (concat-ne-nil _ _)
]

-- What `to_string` writes, `parse` reads back, if the type holds the number.
pub read-show : (bound n : ℕ) → n < bound → read bound (show n) ≡ some n
unfolding show
read-show bound n h =
    read-read_digits bound (digits (suc n) n) (digits-ne-nil n n) (digits-AllDigits (suc n) n)
    ∙ read_digits-digits bound (suc n) n (omega arith) h

pub show-ne-nil : (n : ℕ) → show n ≢ []
unfolding show
show-ne-nil n = digits-ne-nil n n
