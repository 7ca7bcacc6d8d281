-- ===== src/Pct/Mount/Written.antt =====
-- The mounts of src/pct.rs whose lines are cut back at the commas they were joined with.
use native.Mathlib.Omega.{arith}
use pve_compose.Base.{
  ℕ, ◌/◌, ◌%◌, ◌^◌, ◌<◌, ◌≡◌, ◌≢◌, refl, ap, Bool, true, false, Option, none, some, List, [], ◌∷◌,
  ◌++◌, Text, codes, text_eq, All, Lacks, All-append, strip_prefix, split, trim, if◌then◌else◌,
}
use pve_compose.Base.Decimal.{show, AllDigits, show-AllDigits}
use pve_compose.Base.Dict.{Dict}
use pve_compose.Base.Dict.Sorted.{IsSorted}
use pve_compose.Size.{Size, display, is_multiple, kib, mib, gib, tib}
use pve_compose.Pct.Mount.{Mount, option_text, size_text, others_text, with_commas}

abbrev pub comma : ℕ
comma = b','

-- The parts between the commas are those that were written.
pub split-with_commas :
    (v : Text) (ps : List Text)
    → Lacks comma v
    → All (Lacks comma) ps
    → split comma (v ++ with_commas ps) ≡ v ∷ ps
unfolding split with_commas
split-with_commas [] [] hv hs = refl
split-with_commas [] (p ∷ ps) hv (hp, hs) = ap (λ t. [] ∷ t) (split-with_commas p ps hp hs)
split-with_commas (c ∷ v) ps (hc, hv) hs = rw (split-with_commas v ps hv hs) (ground arith)

-- What a mount may hold for its line to be read back: no comma where the line is cut, a volume with
-- no space around it and not spelled like the option, a size of whole KiB, and keys of other
-- options that rise, that hold no `=`, and that are none of the four that the line names.
abbrev pub IsWrittenSize : Option Size → Type 0
IsWrittenSize none = Unit
IsWrittenSize (some s) = (s.bytes % kib ≡ 0) × (0 < s.bytes) × (s.bytes < 2 ^ 63)

abbrev pub LacksComma : Option Text → Type 0
LacksComma none = Unit
LacksComma (some t) = Lacks comma t

abbrev pub IsOtherKey : Text → Type 0
IsOtherKey k =
    Lacks comma k
    × Lacks b'=' k
    × (text_eq k (codes "mp") ≡ false)
    × (text_eq k (codes "size") ≡ false)
    × (text_eq k (codes "backup") ≡ false)
    × (text_eq k (codes "volume") ≡ false)

abbrev pub AreOthers : Dict Text → Type 0
AreOthers [] = Unit
AreOthers ((k, v) ∷ other) = (IsOtherKey k × Lacks comma v) × AreOthers other

pub record IsWritten (m : Mount) : Type 0 where
  pub volume_there : m.volume ≢ []
  pub volume_lacks : Lacks comma m.volume
  pub volume_trim : trim m.volume ≡ m.volume
  pub volume_bare : strip_prefix m.volume (codes "volume=") ≡ none
  pub mp_lacks : LacksComma m.mp
  pub size_written : IsWrittenSize m.size
  pub others_written : AreOthers m.other
  pub others_sorted : IsSorted m.other

Lacks-show : (n : ℕ) → Lacks comma (show n)
Lacks-show n = digits_lack (show n) (show-AllDigits n)
  where
    digits_lack : (t : Text) → AllDigits t → Lacks comma t
    digits_lack [] h = tt
    digits_lack (c ∷ t) (d, h) = (ground arith, digits_lack t h)

Lacks-if :
    (b : Bool) (t u : Text) → Lacks comma t → Lacks comma u → Lacks comma (if b then t else u)
Lacks-if true t u h k = h
Lacks-if false t u h k = k

Lacks-unit : (n c : ℕ) → c ≢ comma → Lacks comma (show n ++ c ∷ [])
Lacks-unit n c h = All-append (λ d. d ≢ comma) (show n) (c ∷ []) (Lacks-show n) (h, tt)

Lacks-display : (s : Size) → Lacks comma (display s)
unfolding display
Lacks-display s =
    Lacks-if (is_multiple s.bytes tib) (show (s.bytes / tib) ++ codes "T") _
      (Lacks-unit (s.bytes / tib) b'T' (omega arith))
      (Lacks-if (is_multiple s.bytes gib) (show (s.bytes / gib) ++ codes "G") _
        (Lacks-unit (s.bytes / gib) b'G' (omega arith))
        (Lacks-if (is_multiple s.bytes mib) (show (s.bytes / mib) ++ codes "M") _
          (Lacks-unit (s.bytes / mib) b'M' (omega arith))
          (Lacks-if (is_multiple s.bytes kib) (show (s.bytes / kib) ++ codes "K") (show s.bytes)
            (Lacks-unit (s.bytes / kib) b'K' (omega arith)) (Lacks-show s.bytes))))

pub Lacks-mp : (mp : Option Text) → LacksComma mp → All (Lacks comma) (option_text "mp=" mp)
Lacks-mp none h = tt
Lacks-mp (some v) h = ((omega arith, (omega arith, (omega arith, h))), tt)

pub Lacks-size : (size : Option Size) → All (Lacks comma) (option_text "size=" (size_text size))
Lacks-size none = tt
Lacks-size (some s) =
    ((omega arith, (omega arith, (omega arith, (omega arith, (omega arith, Lacks-display s))))), tt)

pub Lacks-backup : (b : Bool) → All (Lacks comma) (if b then codes "backup=1" ∷ [] else [])
Lacks-backup true = omega arith
Lacks-backup false = tt

pub Lacks-others : (other : Dict Text) → AreOthers other → All (Lacks comma) (others_text other)
unfolding others_text
Lacks-others [] h = tt
Lacks-others ((k, v) ∷ other) ((key, vc), h) = (
  All-append (λ c. c ≢ comma) (k ++ codes "=") v
      (All-append (λ c. c ≢ comma) k (codes "=") key.0 (omega arith, tt)) vc,
  Lacks-others other h,
)
