-- ===== src/Plan/Settled/Mounts.antt =====
-- The wrapper's mounts while src/plan.rs adds one and changes one.
use native.Mathlib.Omega.{arith}
use pve_compose.Base.{
  ℕ, suc, ◌+◌, ◌≤◌, ◌<◌, ◌≡◌, ◌≢◌, ◌⊎◌, inl, inr, refl, sym, ap, subst, ◌∙◌, true, false, Option,
  none, some, List, [], ◌∷◌, ◌++◌, Text, codes, is_text, find, All, All-append_left,
  All-append_right, All-map, strip_prefix, strip_prefix-append, Bool-cases,
}
use pve_compose.Base.Decimal.{show, read, read-show}
use pve_compose.Pct.Mount.{Mount}
use pve_compose.Pct.Guest.{contains_index}
use pve_compose.Pct.Guest.Keys.{IsKeyFree, IsKeyed, IsKeyed-split}
use pve_compose.Plan.Execute.Documented.{mp_key}
use pve_compose.Plan.Execute.Indexes.{IsNextFree}

-- What `mount_at` finds.
abbrev pub at : List Mount → Text → Option Mount
at ms p = find (λ m. is_text m.mp p) ms

pub at-insert_other :
    (before later : List Mount) (m : Mount) (q : Text)
    → is_text m.mp q ≡ false
    → at (before ++ m ∷ later) q ≡ at (before ++ later) q
at-insert_other [] later m q h = rw h refl
at-insert_other (n ∷ before) later m q h = rw (at-insert_other before later m q h) refl

pub at-insert_here :
    (before later : List Mount) (m : Mount) (p : Text)
    → is_text m.mp p ≡ true
    → at before p ≡ none
    → at (before ++ m ∷ later) p ≡ some m
at-insert_here [] later m p h e = rw h refl
at-insert_here (n ∷ before) later m p h e = elim (Bool-cases (is_text n.mp p)) [
  | inl found ↦ absurd (cc (rw found at e))
  | inr other ↦ rw other (at-insert_here before later m p h (rw other at e))
]

pub at-append_left :
    (before later : List Mount) (p : Text) → at (before ++ later) p ≡ none → at before p ≡ none
at-append_left [] later p e = refl
at-append_left (n ∷ before) later p e = elim (Bool-cases (is_text n.mp p)) [
  | inl found ↦ absurd (cc (rw found at e))
  | inr other ↦ rw other (at-append_left before later p (rw other at e))
]

-- Where the mount that is found stands.
at_splits :
    (ms : List Mount) (p : Text) (m : Mount)
    → at ms p ≡ some m
    → (before : List Mount) × (later : List Mount) × (ms ≡ before ++ m ∷ later)
      × (is_text m.mp p ≡ true)
      × (at before p ≡ none)
at_splits [] p m e = absurd (cc e)
at_splits (n ∷ ms) p m e = elim (Bool-cases (is_text n.mp p)) [
  | inl found ↦ here found (rw found at e)
  | inr other ↦
      let (before, later, cut, met, none_before) = at_splits ms p m (rw other at e) in
      (n ∷ before, later, ap (λ t. n ∷ t) cut, met, rw other none_before)
]
  where
    here :
        is_text n.mp p ≡ true
        → Path (Option Mount) (some n) (some m)
        → (before : List Mount) × (later : List Mount) × (n ∷ ms ≡ before ++ m ∷ later)
          × (is_text m.mp p ≡ true)
          × (at before p ≡ none)
    here found same =
        let e : n ≡ m = cc same in
        ([], ms, ap (λ x. x ∷ ms) e, subst (λ x. is_text x.mp p ≡ true) e found, refl)

-- A key `mpN` whose number is in use from the start, or was taken since.
abbrev pub IsNumbered : List ℕ → ℕ → Mount → Type 0
IsNumbered used next n =
    (j : ℕ) × (n.key ≡ mp_key j) × ((contains_index used j ≡ true) ⊎ (j < next))

mp_key_injective : (i j : ℕ) → mp_key i ≡ mp_key j → i ≡ j
mp_key_injective i j e =
    let shown =
      sym (strip_prefix-append (codes "mp") (show i))
      ∙ (ap (λ t. strip_prefix t (codes "mp")) e ∙ strip_prefix-append (codes "mp") (show j)) in
    let bound = suc (i + j) in
    same (
      sym (read-show bound i (omega arith))
      ∙ (ap (read bound) (some_same shown) ∙ read-show bound j (omega arith)))
  where
    some_same : {s t : Text} → Path (Option Text) (some s) (some t) → s ≡ t
    some_same h = cc h

    same : Path (Option ℕ) (some i) (some j) → i ≡ j
    same h = cc h

pub numbered-IsKeyFree :
    (used : List ℕ) (next i : ℕ) (ms : List Mount)
    → IsNextFree used next i
    → All (IsNumbered used next) ms
    → IsKeyFree (mp_key i) ms
numbered-IsKeyFree used next i ms (up, free, _) h = All-map (λ n k. differs n k) ms h
  where
    differs : (n : Mount) → IsNumbered used next n → n.key ≢ mp_key i
    differs n (j, key, known) e =
        let same = mp_key_injective j i (sym key ∙ e) in
        elim known [
          | inl taken ↦ absurd (cc (taken, free, same))
          | inr below ↦ absurd (omega arith)
        ]

pub IsNumbered-later :
    (used : List ℕ) (next next' : ℕ) (ms : List Mount)
    → next ≤ next'
    → All (IsNumbered used next) ms
    → All (IsNumbered used next') ms
IsNumbered-later used next next' ms up h = All-map (λ n k. widened n k) ms h
  where
    widened : (n : Mount) → IsNumbered used next n → IsNumbered used next' n
    widened n (j, key, inl taken) = (j, key, inl taken)
    widened n (j, key, inr below) = (j, key, inr (omega arith))

-- The mount that is found stands once, and no other has its key.
pub stands_alone :
    (ms : List Mount) (p : Text) (m : Mount)
    → IsKeyed ms
    → at ms p ≡ some m
    → (before : List Mount) × (later : List Mount) × (ms ≡ before ++ m ∷ later)
      × (is_text m.mp p ≡ true)
      × (at before p ≡ none)
      × IsKeyFree m.key before
      × IsKeyFree m.key later
stands_alone ms p m keyed there =
    let (before, later, cut, met, none_before) = at_splits ms p m there in
    let (_, free) = IsKeyed-split before later m (subst IsKeyed cut keyed) in
    (
      before,
      later,
      cut,
      met,
      none_before,
      All-append_left (λ n. n.key ≢ m.key) before later free,
      All-append_right (λ n. n.key ≢ m.key) before later free,
    )

pub IsNumbered-at :
    (used : List ℕ) (next : ℕ) (before later : List Mount) (m : Mount)
    → All (IsNumbered used next) (before ++ m ∷ later)
    → IsNumbered used next m
IsNumbered-at used next before later m h =
    (All-append_right (IsNumbered used next) before (m ∷ later) h).0
