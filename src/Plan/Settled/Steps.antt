-- ===== src/Plan/Settled/Steps.antt =====
-- One call of src/plan.rs for a mount, and the state of the wrapper's mounts behind it.
use native.Mathlib.Omega.{arith}
use pve_compose.Base.{
  ℕ, ◌+◌, ◌≤◌, ◌≡◌, refl, sym, subst, ◌∙◌, true, false, Option, none, some, List, ◌∷◌, ◌++◌, Text,
  text_eq, text_eq_sound, text_eq_refl, is_text, All, All-append, All-append_left, All-append_right,
  inr,
}
use pve_compose.Pct.Mount.{Mount}
use pve_compose.Pct.Guest.{GuestConfig, mount_at}
use pve_compose.Pct.Guest.Keys.{IsKeyFree, IsKeyed, IsKeyed-insert, IsKeyed-split}
use pve_compose.Plan.Execute.Documented.{mp_key, Adds}
use pve_compose.Plan.Settled.Mounts.{
  at-insert_other, at-insert_here, at-append_left, IsNumbered, IsNumbered-later,
}

-- A state of the run: the mounts have a key each, whose numbers the run knows.
abbrev pub IsKept : List ℕ → ℕ → GuestConfig → Type 0
IsKept used next g = IsKeyed g.mounts × All (IsNumbered used next) g.mounts

-- Between two states of the run only what is mounted at the path has changed.
pub record IsMoved (used : List ℕ) (p : Text) (next : ℕ) (g : GuestConfig) (next' : ℕ)
    (g' : GuestConfig) : Type 0 where
  pub grown : next ≤ next'
  pub kept : IsKept used next' g'
  pub same_features : g'.features ≡ g.features
  pub same_tags : g'.tags ≡ g.tags
  pub same_template : g'.is_template ≡ g.is_template
  pub others : (q : Text) → text_eq p q ≡ false → mount_at g' q ≡ mount_at g q

module _ (used : List ℕ) (p : Text) where
  pub unmoved : (next : ℕ) (g : GuestConfig) → IsKept used next g → IsMoved used p next g next g
  unmoved next g kept = record {
    grown = omega arith;
    kept = kept;
    same_features = refl;
    same_tags = refl;
    same_template = refl;
    others = λ q differ. refl;
  }

  -- A new mount at a free key and a path where nothing is mounted.
  pub added :
      (next i : ℕ) (g g' : GuestConfig) (m : Mount)
      → IsKept used next g
      → next ≤ i
      → IsKeyFree m.key g.mounts
      → m.key ≡ mp_key i
      → m.mp ≡ some p
      → mount_at g p ≡ none
      → Adds g m g'
      → IsMoved used p next g (i + 1) g' × (mount_at g' p ≡ some m)
  unfolding mount_at
  added next i g g' m (keyed, numbered) up free key mp nothing (before, later, cut, e) =
      subst (λ h. IsMoved used p next g (i + 1) h × (mount_at h p ≡ some m)) (sym e)
        (
          record {
            grown = omega arith;
            kept = (
              IsKeyed-insert before later m (subst IsKeyed cut keyed)
                  (subst (IsKeyFree m.key) cut free),
              numbers,
            );
            same_features = refl;
            same_tags = refl;
            same_template = refl;
            others = λ q differ. rw cut (at-insert_other before later m q (elsewhere q differ));
          },
          at-insert_here before later m p here (at-append_left before later p (rw cut at nothing)),
        )
    where
      here : is_text m.mp p ≡ true
      here = rw mp (text_eq_refl p)

      elsewhere : (q : Text) → text_eq p q ≡ false → is_text m.mp q ≡ false
      elsewhere q differ = rw mp differ

      all_later : All (IsNumbered used (i + 1)) (before ++ later)
      all_later =
          subst (All (IsNumbered used (i + 1))) cut
            (IsNumbered-later used next (i + 1) g.mounts (omega arith) numbered)

      numbers : All (IsNumbered used (i + 1)) (before ++ m ∷ later)
      numbers =
          All-append (IsNumbered used (i + 1)) before (m ∷ later)
            (All-append_left (IsNumbered used (i + 1)) before later all_later)
            (
              (i, key, inr (omega arith)),
              All-append_right (IsNumbered used (i + 1)) before later all_later,
            )

  other_text :
      (o : Option Text)
      → is_text o p ≡ true
      → (q : Text) → text_eq p q ≡ false
      → is_text o q ≡ false
  other_text none h q differ = absurd (cc h)
  other_text (some t) h q differ =
      subst (λ u. text_eq u q ≡ false) (sym (text_eq_sound t p h)) differ

  -- A mount that is found at the path changes, and keeps its key and its path.
  pub changed :
      (next : ℕ) (g g' : GuestConfig) (before later : List Mount) (m m' : Mount)
      → IsKept used next g
      → g.mounts ≡ before ++ m ∷ later
      → is_text m.mp p ≡ true
      → mount_at (record g { mounts = before }) p ≡ none
      → m'.key ≡ m.key
      → m'.mp ≡ m.mp
      → g' ≡ record g { mounts = before ++ m' ∷ later }
      → IsMoved used p next g next g' × (mount_at g' p ≡ some m')
  unfolding mount_at
  changed next g g' before later m m' (keyed, numbered) cut met nothing key mp e =
      subst (λ h. IsMoved used p next g next h × (mount_at h p ≡ some m')) (sym e)
        (
          record {
            grown = omega arith;
            kept = (keys_kept, numbers);
            same_features = refl;
            same_tags = refl;
            same_template = refl;
            others = λ q differ. rw cut (
                at-insert_other before later m' q (rw mp (elsewhere q differ))
                ∙ sym (at-insert_other before later m q (elsewhere q differ)));
          },
          at-insert_here before later m' p (rw mp met) nothing,
        )
    where
      elsewhere : (q : Text) → text_eq p q ≡ false → is_text m.mp q ≡ false
      elsewhere q differ = other_text m.mp met q differ

      keys_kept : IsKeyed (before ++ m' ∷ later)
      keys_kept =
          let (rest, free) = IsKeyed-split before later m (subst IsKeyed cut keyed) in
          IsKeyed-insert before later m' rest
            (subst (λ k. IsKeyFree k (before ++ later)) (sym key) free)

      numbers : All (IsNumbered used next) (before ++ m' ∷ later)
      numbers =
          let all = subst (All (IsNumbered used next)) cut numbered in
          let ((j, name, known), right) =
            All-append_right (IsNumbered used next) before (m ∷ later) all in
          All-append (IsNumbered used next) before (m' ∷ later)
            (All-append_left (IsNumbered used next) before (m ∷ later) all)
            ((j, key ∙ name, known), right)
