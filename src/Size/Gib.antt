-- ===== src/Size/Gib.antt =====
-- src/size.rs: `to_pct_gib`, the size in GiB as `pct set` takes it, in at most six decimals.
-- A double holds the quotient by 2 ^ 30 of a size below 2 ^ 53 bytes, and its distance to the next
-- integer, exactly; the model computes them with integers, and stands for sizes below that bound.
use mathlib.Core.List.{reverse}
use pve_compose.Base.{
  ℕ, zero, suc, ◌+◌, ◌-◌, ◌*◌, ◌/◌, ◌%◌, ◌^◌, ◌≡◌, refl, [], ◌∷◌, ◌++◌, Text, codes, length, ltb,
  ◌==◌, if◌then◌else◌,
}
use pve_compose.Base.Decimal.{show}
use pve_compose.Size.{Size, gib, mib, tib}

-- `(b as f64 / GIB as f64).round()`, halves away from zero.
abbrev rounded : ℕ → ℕ
rounded b = if ltb (2 * (b % gib)) gib then b / gib else b / gib + 1

-- The distance in bytes between the size and that many GiB.
abbrev distance : ℕ → ℕ
distance b = if ltb (2 * (b % gib)) gib then b % gib else gib - b % gib

-- The millionths of a GiB that `{:.6}` prints, halves to the even one.
abbrev millionths : ℕ → ℕ
millionths b =
    let q = b * 10 ^ 6 / gib in
    let r = b * 10 ^ 6 % gib in
    if ltb (2 * r) gib then q else if 2 * r == gib then q + q % 2 else q + 1

zeros : ℕ → Text
zeros zero = []
zeros (suc n) = b'0' ∷ zeros n

-- `n` in six digits.
six : ℕ → Text
unfolding zeros
six n = zeros (6 - length (show n)) ++ show n

-- `trim_start_matches(c)`, for the end of a reversed text
drop_all : ℕ → Text → Text
drop_all c [] = []
drop_all c (d ∷ s) = if d == c then drop_all c s else d ∷ s

abbrev trim_end : ℕ → Text → Text
trim_end c s = reverse (drop_all c (reverse s))

unfoldable pub to_pct_gib : Size → Text
unfolding six drop_all
to_pct_gib s =
    let b = s.bytes in
    if ltb (distance b * 10 ^ 9) gib
    then show (rounded b)
    else trim_end b'.'
        (trim_end b'0' (show (millionths b / 10 ^ 6) ++ codes "." ++ six (millionths b % 10 ^ 6)))

-- The sizes of the source's own test.
source_sizes :
    (to_pct_gib (record { bytes = 2 * tib }) ≡ codes "2048")
    × (to_pct_gib (record { bytes = 4 * gib }) ≡ codes "4")
    × (to_pct_gib (record { bytes = 512 * mib }) ≡ codes "0.5")
unfolding to_pct_gib show
source_sizes = (refl, refl, refl)
