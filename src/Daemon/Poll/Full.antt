-- ===== src/Daemon/Poll/Full.antt =====
-- What the loop of src/ops/daemon.rs gets around to.
use native.Mathlib.Omega.{arith}
use pve_compose.Base.{
  ℕ, ◌-◌, ◌≤◌, ◌≡◌, ◌⊎◌, inl, inr, refl, sym, subst, Bool, true, Option, none, some, List, [], ◌∷◌,
  Text, leb, All, All-map, Any, ◌==◌, Bool-cases, Option-cases, or_true,
}
use pve_compose.Config.{Config}
use pve_compose.Ops.{Ctx}
use pve_compose.Pct.Listing.{Listed}
use pve_compose.Daemon.{Memo, remembered, remember, is_digest, is_skipped, pass}
use pve_compose.Daemon.Memo.{is_digest_sound}
use pve_compose.Daemon.Poll.{State, reload, pass_of, poll}

-- A guest of the list is not the daemon's, or it has no document that can be read, or it is worked on.
abbrev pub IsCovered : Ctx → (digests : ℕ → Option Text) → (handled : List ℕ) → Listed → Type 0
IsCovered ctx digests handled l =
    (is_skipped ctx l ≡ true) ⊎ (digests l.vmid ≡ none) ⊎ Any (λ v. v ≡ l.vmid) handled

module _ (ctx : Ctx) (digests : ℕ → Option Text) where
  -- The same, or its document is the one that the memo has.
  abbrev IsKnownOrCovered : Memo → List ℕ → Listed → Type 0
  IsKnownOrCovered memo handled l =
      ((d : Text) × (remembered l.vmid memo ≡ some d)) ⊎ IsCovered ctx digests handled l

  handled_more :
      (memo : Memo) (v : ℕ) (d : Text) (handled : List ℕ) (l : Listed)
      → IsKnownOrCovered (remember v d memo) handled l
      → IsKnownOrCovered memo (v ∷ handled) l
  unfolding remembered
  handled_more memo v d handled l (inl known) = elim (Bool-cases (v == l.vmid)) [
    | inl same ↦ inr (inr (inr (inl (ground arith))))
    | inr other ↦ inl (rw other at known)
  ]
  handled_more memo v d handled l (inr (inl skip)) = inr (inl skip)
  handled_more memo v d handled l (inr (inr (inl nothing))) = inr (inr (inl nothing))
  handled_more memo v d handled l (inr (inr (inr there))) = inr (inr (inr (inr there)))

  -- The result of a walk is replaced by an equal one.
  covered_by :
      (memo : Memo) (l : Listed) (ls : List Listed) (r : Memo × List ℕ)
      → pass ctx digests memo (l ∷ ls) ≡ r
      → All (IsKnownOrCovered memo r.1) (l ∷ ls)
      → All (IsKnownOrCovered memo (pass ctx digests memo (l ∷ ls)).1) (l ∷ ls)
  covered_by memo l ls r e h = subst (λ q. All (IsKnownOrCovered memo q.1) (l ∷ ls)) (sym e) h

  pass-IsKnownOrCovered :
      (memo : Memo) (ls : List Listed) → All (IsKnownOrCovered memo (pass ctx digests memo ls).1) ls
  unfolding pass
  pass-IsKnownOrCovered memo [] = tt
  pass-IsKnownOrCovered memo (l ∷ ls) = elim (Bool-cases (is_skipped ctx l)) [
    | inl skip ↦
        covered_by memo l ls (pass ctx digests memo ls) (rw skip refl)
          (inr (inl skip), pass-IsKnownOrCovered memo ls)
    | inr take ↦ elim (Option-cases (digests l.vmid)) [
      | inl nothing ↦
          covered_by memo l ls (pass ctx digests memo ls) (rw (take, nothing) refl)
            (inr (inr (inl nothing)), pass-IsKnownOrCovered memo ls)
      | inr (d, found) ↦ elim (Bool-cases (is_digest d (remembered l.vmid memo))) [
        | inl known ↦
            covered_by memo l ls (pass ctx digests memo ls) (rw (take, found, known) refl) (
              inl (d, is_digest_sound d (remembered l.vmid memo) known),
              pass-IsKnownOrCovered memo ls,
            )
        | inr fresh ↦
            let memo' = remember l.vmid d memo in
            covered_by memo l ls
              ((pass ctx digests memo' ls).0, l.vmid ∷ (pass ctx digests memo' ls).1)
              (rw (take, found, fresh) refl)
              (
                inr (inr (inr (inl refl))),
                All-map (handled_more memo l.vmid d (pass ctx digests memo' ls).1) ls
                    (pass-IsKnownOrCovered memo' ls),
              )
      ]
    ]
  ]

  pass-IsCovered : (ls : List Listed) → All (IsCovered ctx digests (pass ctx digests [] ls).1) ls
  unfolding remembered
  pass-IsCovered ls =
      All-map (λ l h. elim h [ inl (d, known) ↦ absurd (cc known) | inr covered ↦ covered ]) ls
        (pass-IsKnownOrCovered [] ls)

-- Once the interval for a full pass is over, the next poll that gets a token and a list of guests works
-- on every running guest of that list that is selected and has a document, whatever the memo had.
pub poll-IsCovered :
    (same : Config → Config → Bool) (digests : ℕ → Option Text) (full_every now : ℕ) (token : Text)
    (loaded : Option Config) (listed : List Listed) (s : State)
    → full_every ≤ now - s.last_full
    → All
        (IsCovered
          (reload same loaded s).ctx
          digests
          (poll same digests full_every now (some token) loaded (some listed) s).1)
        listed
unfolding poll pass_of
poll-IsCovered same digests full_every now token loaded listed s due =
    rw (is_due, or_true) (pass-IsCovered (reload same loaded s).ctx digests listed)
  where
    is_due : leb full_every (now - s.last_full) ≡ true
    is_due = ground (arith, due)
