-- ===== src/Pct/Guest/Keys.antt =====
-- The keys of a container's mounts.
use pve_compose.Base.{
  ◌≢◌, sym, List, [], ◌∷◌, ◌++◌, Text, All, All-append, All-append_left, All-append_right,
}
use pve_compose.Pct.Mount.{Mount}

-- No mount has the key.
abbrev pub IsKeyFree : Text → List Mount → Type 0
IsKeyFree k = All (λ n. n.key ≢ k)

-- No two mounts have the same key.
abbrev pub IsKeyed : List Mount → Type 0
IsKeyed [] = Unit
IsKeyed (m ∷ ms) = IsKeyFree m.key ms × IsKeyed ms

pub IsKeyed-insert :
    (before later : List Mount) (m : Mount)
    → IsKeyed (before ++ later)
    → IsKeyFree m.key (before ++ later)
    → IsKeyed (before ++ m ∷ later)
IsKeyed-insert [] later m keyed free = (free, keyed)
IsKeyed-insert (n ∷ before) later m (here, keyed) (differ, free) = (
  All-append (λ x. x.key ≢ n.key) before (m ∷ later)
      (All-append_left (λ x. x.key ≢ n.key) before later here)
      (λ e. differ (sym e), All-append_right (λ x. x.key ≢ n.key) before later here),
  IsKeyed-insert before later m keyed free,
)

pub IsKeyed-split :
    (before later : List Mount) (m : Mount)
    → IsKeyed (before ++ m ∷ later)
    → IsKeyed (before ++ later) × IsKeyFree m.key (before ++ later)
IsKeyed-split [] later m (free, keyed) = (keyed, free)
IsKeyed-split (n ∷ before) later m (here, keyed) =
    let (rest, free) = IsKeyed-split before later m keyed in
    let left = All-append_left (λ x. x.key ≢ n.key) before (m ∷ later) here in
    let (differ, right) = All-append_right (λ x. x.key ≢ n.key) before (m ∷ later) here in
    ((All-append (λ x. x.key ≢ n.key) before later left right, rest), (λ e. differ (sym e), free))
