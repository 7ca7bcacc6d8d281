-- ===== src/Size.antt =====
-- src/size.rs: sizes in bytes, how they are printed and how they are read.
pub mod RoundTrip
pub mod Gib
pub mod Tests
use pve_compose.Base.{
  ℕ, ◌+◌, ◌-◌, ◌*◌, ◌/◌, ◌%◌, ◌<◌, Bool, true, false, ◌&&◌, ◌||◌, Option, none, some, List, [], ◌∷◌,
  ◌++◌, map, Text, codes, text_eq, is_empty, is_ascii_digit, to_ascii_uppercase, trim, ltb, leb,
  ◌==◌, if◌then◌else◌, Result, ok, err, ◌>>=◌, ◌>>◌, guard, ok_or,
}
use pve_compose.Base.Decimal.{show}

-- `Size(u64)`
pub record Size : Type 0 where
  pub bytes : ℕ

abbrev pub kib : ℕ
kib = 1024

abbrev pub mib : ℕ
mib = kib * 1024

abbrev pub gib : ℕ
gib = mib * 1024

abbrev pub tib : ℕ
tib = gib * 1024

abbrev pub is_multiple : ℕ → ℕ → Bool
is_multiple b unit = leb unit b && b % unit == 0

-- `Display`: the largest unit that divides the size, and no unit for a number of bytes.
unfoldable pub display : Size → Text
display s =
    let b = s.bytes in
    if is_multiple b tib
    then show (b / tib) ++ codes "T"
    else if is_multiple b gib
    then show (b / gib) ++ codes "G"
    else if is_multiple b mib
    then show (b / mib) ++ codes "M"
    else if is_multiple b kib
    then show (b / kib) ++ codes "K"
    else show b

unfoldable pub to_pct_resize : Size → Text
to_pct_resize = display

-- What `f64` does where a size is read. The program's language has floats and this one has none.
pub record Float : Type 1 where
  pub F : Type 0
  -- `num.parse::<f64>().ok()`
  pub parse : Text → Option F
  -- `n * mult as f64`
  pub times : F → ℕ → F
  pub round : F → F
  -- `x < 1.0`
  pub is_below_one : F → Bool
  -- `x as u64`
  pub to_u64 : F → ℕ

pub data SizeError : Type 0 where
  empty_size : SizeError
  bad_size : Text → SizeError
  bad_unit : Text → SizeError
  zero_size : Text → SizeError

abbrev is_number_char : ℕ → Bool
is_number_char c = is_ascii_digit c || c == b'.'

-- The longest prefix of digits and dots, and the rest.
span_number : Text → Text × Text
span_number [] = ([], [])
span_number (c ∷ s) =
    let (num, unit) = span_number s in if is_number_char c then (c ∷ num, unit) else ([], c ∷ s)

-- The unit behind the number: a size that ends with its number is in GiB.
abbrev unit_of : Text → Text
unit_of [] = codes "G"
unit_of (c ∷ s) = c ∷ s

abbrev one_of : Text → List Text → Bool
one_of u [] = false
one_of u (t ∷ ts) = text_eq u t || one_of u ts

multiplier : Text → Option ℕ
multiplier u =
    if one_of u (codes "" ∷ codes "G" ∷ codes "GB" ∷ codes "GIB" ∷ [])
    then some gib
    else if one_of u (codes "M" ∷ codes "MB" ∷ codes "MIB" ∷ [])
    then some mib
    else if one_of u (codes "T" ∷ codes "TB" ∷ codes "TIB" ∷ [])
    then some tib
    else if one_of u (codes "K" ∷ codes "KB" ∷ codes "KIB" ∷ [])
    then some kib
    else if text_eq u (codes "B")
    then some 1
    else none

module _ (fl : Float) where
  open fl use {parse, times, round, is_below_one, to_u64}

  -- `s.parse::<Size>()`
  unfoldable pub from_str : Text → Result SizeError Size
  unfolding span_number multiplier
  from_str text = do
    let s = trim text
    if is_empty s then err empty_size else ok tt
    let (num, unit) = span_number s
    n ← ok_or (parse num) (bad_size s)
    mult ← ok_or (multiplier (map to_ascii_uppercase (trim (unit_of unit)))) (bad_unit s)
    let bytes = round (times n mult)
    if is_below_one bytes then err (zero_size s) else ok (record { bytes = to_u64 bytes })
