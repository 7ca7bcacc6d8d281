-- ===== src/Size/Tests.antt =====
-- Sizes read with exact numbers in the place of floats, and the theorems there.
use native.Mathlib.Omega.{arith}
use pve_compose.Base.{ℕ, ◌*◌, ◌≡◌, refl, ok, ◌==◌}
use pve_compose.Base.Decimal.{read, u64_bound, read-show}
use pve_compose.Size.{gib, display, Float, from_str}
use pve_compose.Size.RoundTrip.{IsExact, from_str-display, from_str-display_bare}

abbrev pub whole : Float
whole = record {
  F = ℕ;
  parse = read u64_bound;
  times = λ n mult. n * mult;
  round = λ n. n;
  is_below_one = λ n. n == 0;
  to_u64 = λ n. n;
}

pub whole-IsExact : IsExact whole
whole-IsExact = record {
  of_ℕ = λ n. n;
  parse-show = λ n small. read-show u64_bound n (omega (arith, small));
  times_exact = λ n k _ _. refl;
  round_exact = λ n. refl;
  is_below_one_exact = λ n. refl;
  to_u64_exact = λ n k _ _. refl;
}

from_str-display_example :
    from_str whole (display (record { bytes = 20 * gib })) ≡ ok (record { bytes = 20 * gib })
from_str-display_example =
    from_str-display whole whole-IsExact (record { bytes = 20 * gib }) refl (omega arith)
      (omega arith)

from_str-display_bare_example :
    from_str whole (display (record { bytes = 1500 })) ≡ ok (record { bytes = 1500 * gib })
from_str-display_bare_example =
    from_str-display_bare whole whole-IsExact (record { bytes = 1500 }) (λ e. cc e) (omega arith)
