-- ===== src/Size/RoundTrip.antt =====
-- Reading back what `Display` wrote.
use native.Mathlib.Omega.{arith}
use pve_compose.Base.{
  ℕ, ◌*◌, ◌/◌, ◌%◌, ◌^◌, ◌<◌, ◌≡◌, ◌≢◌, refl, ◌∙◌, true, false, some, [], ◌∷◌, ◌++◌, append-nil,
  map, Text, text_dec, codes, trim, trim_graphic, IsGraphic, All, All-append, is_ascii_uppercase,
  to_ascii_uppercase, ◌==◌, Bool-cases, inl, inr, ok, is_empty,
}
use pve_compose.Base.Decimal.{show, show-AllDigits, show-ne-nil, AllDigits}
use pve_compose.Size.{
  Size, kib, mib, gib, tib, is_multiple, display, Float, from_str, span_number, unit_of, multiplier,
}

-- What IEEE 754 gives at the numbers that a double holds exactly: an integer below 2 ^ 53, also
-- times a power of two.
pub record IsExact (fl : Float) : Type 0 where
  pub of_ℕ : ℕ → fl.F
  pub parse-show : (n : ℕ) → n < 2 ^ 53 → fl.parse (show n) ≡ some (of_ℕ n)
  pub times_exact :
      (n k : ℕ) → n < 2 ^ 53 → n * 2 ^ k < 2 ^ 64 → fl.times (of_ℕ n) (2 ^ k) ≡ of_ℕ (n * 2 ^ k)
  pub round_exact : (n : ℕ) → fl.round (of_ℕ n) ≡ of_ℕ n
  pub is_below_one_exact : (n : ℕ) → fl.is_below_one (of_ℕ n) ≡ (n == 0)
  pub to_u64_exact :
      (n k : ℕ) → n < 2 ^ 53 → n * 2 ^ k < 2 ^ 64 → fl.to_u64 (of_ℕ (n * 2 ^ k)) ≡ n * 2 ^ k

digit-IsGraphic : (s : Text) → AllDigits s → All IsGraphic s
digit-IsGraphic [] _ = tt
digit-IsGraphic (c ∷ s) (h, hs) = ((ground arith, ground arith), digit-IsGraphic s hs)

-- A text that no number goes on into.
abbrev EndsNumber : Text → Type 0
EndsNumber u = span_number u ≡ ([], u)

span_number-append : (s u : Text) → AllDigits s → EndsNumber u → span_number (s ++ u) ≡ (s, u)
unfolding span_number
span_number-append [] u _ h = h
span_number-append (c ∷ s) u (d, hs) h = ground (arith, span_number-append s u hs h)

append-not-is_empty : (s u : Text) → s ≢ [] → is_empty (s ++ u) ≡ false
append-not-is_empty [] u h = absurd (h refl)
append-not-is_empty (c ∷ s) u h = refl

units :
    (multiplier (codes "T") ≡ some tib)
    × (multiplier (codes "G") ≡ some gib)
    × (multiplier (codes "M") ≡ some mib)
    × (multiplier (codes "K") ≡ some kib)
unfolding multiplier text_dec
units = (refl, refl, refl, refl)

bare_bytes :
    (b : ℕ)
    → b % kib ≢ 0
    → (is_multiple b tib ≡ false)
      × (is_multiple b gib ≡ false)
      × (is_multiple b mib ≡ false)
      × (is_multiple b kib ≡ false)
bare_bytes b h = (ground arith, ground arith, ground arith, ground arith)

module _ (fl : Float) (exact : IsExact fl) where
  from_str_number :
      (v k : ℕ) (u : Text)
      → All IsGraphic u
      → EndsNumber u
      → multiplier (map to_ascii_uppercase (trim (unit_of u))) ≡ some (2 ^ k)
      → v < 2 ^ 53
      → v * 2 ^ k < 2 ^ 64
      → 0 < v * 2 ^ k
      → from_str fl (show v ++ u) ≡ ok (record { bytes = v * 2 ^ k })
  unfolding from_str
  from_str_number v k u plain ends unit small fits pos =
      rw
        (
          trim_graphic (show v ++ u)
              (All-append _ (show v) u (digit-IsGraphic (show v) (show-AllDigits v)) plain),
          append-not-is_empty (show v) u (show-ne-nil v),
          span_number-append (show v) u (show-AllDigits v) ends,
          exact.parse-show v small,
          unit,
          exact.times_exact v k small fits,
          exact.round_exact,
          exact.is_below_one_exact,
          exact.to_u64_exact v k small fits,
        )
        (ground arith)

  from_str_unit :
      (b k c : ℕ)
      → is_ascii_uppercase c ≡ true
      → multiplier (c ∷ []) ≡ some (2 ^ k)
      → b / 2 ^ k < 2 ^ 53
      → b / 2 ^ k * 2 ^ k ≡ b
      → 0 < b
      → b < 2 ^ 64
      → from_str fl (show (b / 2 ^ k) ++ c ∷ []) ≡ ok (record { bytes = b })
  from_str_unit b k c upper unit small whole pos fits =
      from_str_number (b / 2 ^ k) k (c ∷ []) (letter, tt) ends
        (rw (trim_graphic (c ∷ []) (letter, tt), keeps) unit) small (rw whole fits) (rw whole pos)
      ∙ rw whole
    where
      letter : IsGraphic c
      letter = (ground arith, ground arith)

      ends : EndsNumber (c ∷ [])
      ends = unfold span_number in ground arith

      keeps : to_ascii_uppercase c ≡ c
      keeps = ground arith

  -- A size that is a positive number of KiB, below 2 ^ 63 bytes, is read back as it was.
  pub from_str-display :
      (s : Size)
      → s.bytes % kib ≡ 0
      → 0 < s.bytes
      → s.bytes < 2 ^ 63
      → from_str fl (display s) ≡ ok s
  unfolding display
  from_str-display s whole pos fits =
      let b = s.bytes in
      elim (Bool-cases (is_multiple b tib)) [
        | inl t ↦ rw (t, display) (as_unit 40 b'T' refl units.0 (ground arith) (ground arith))
        | inr not_t ↦ elim (Bool-cases (is_multiple b gib)) [
          | inl g ↦
              rw (not_t, g, display) (as_unit 30 b'G' refl units.1 (ground arith) (ground arith))
          | inr not_g ↦ elim (Bool-cases (is_multiple b mib)) [
            | inl m ↦
                rw (not_t, not_g, m, display)
                  (as_unit 20 b'M' refl units.2 (ground arith) (ground arith))
            | inr not_m ↦
                rw (not_t, not_g, not_m, kibs, display)
                  (as_unit 10 b'K' refl units.3 (ground arith) (ground arith))
          ]
        ]
      ]
    where
      as_unit :
          (k c : ℕ)
          → is_ascii_uppercase c ≡ true
          → multiplier (c ∷ []) ≡ some (2 ^ k)
          → s.bytes / 2 ^ k < 2 ^ 53
          → s.bytes / 2 ^ k * 2 ^ k ≡ s.bytes
          → from_str fl (show (s.bytes / 2 ^ k) ++ c ∷ []) ≡ ok s
      as_unit k c u m small same = from_str_unit s.bytes k c u m small same pos (omega arith)

      kibs : is_multiple s.bytes kib ≡ true
      kibs = ground arith

  -- With exact floats, a number of bytes below 2 ^ 34 that is not a whole number of KiB is printed
  -- bare and read back as that number of GiB.
  pub from_str-display_bare :
      (s : Size)
      → s.bytes % kib ≢ 0
      → s.bytes < 2 ^ 34
      → from_str fl (display s) ≡ ok (record { bytes = s.bytes * gib })
  unfolding display
  from_str-display_bare s odd fits =
      let (t, g, m, k) = bare_bytes s.bytes odd in
      rw (t, g, m, k, display, ← append-nil (show s.bytes))
        (from_str_number s.bytes 30 [] tt (unfold span_number in refl)
          (rw (trim_graphic (codes "G") ((omega arith, omega arith), tt)) units.1) (omega arith)
          (omega arith) (omega arith))
