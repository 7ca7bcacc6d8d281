-- ===== src/Daemon/Memo.antt =====
-- What a pass of src/ops/daemon.rs leaves to the next one, and what it starts.
use native.Mathlib.Omega.{arith}
use pve_compose.Base.{
  ℕ, ◌≡◌, ◌⊎◌, inl, inr, refl, sym, ◌∙◌, ap, subst, true, Option, none, some, List, [], ◌∷◌, Text,
  text_eq_refl, text_eq_sound, All, ◌==◌, Bool-cases, Option-cases,
}
use pve_compose.Ops.{Ctx}
use pve_compose.Pct.Listing.{Listed}
use pve_compose.Daemon.{Memo, remembered, remember, is_digest, is_skipped, pass}

pub is_digest_sound : (d : Text) (o : Option Text) → is_digest d o ≡ true → o ≡ some d
is_digest_sound d none h = cc h
is_digest_sound d (some e) h = ap (λ t. some t) (text_eq_sound e d h)

module _ (ctx : Ctx) (digests : ℕ → Option Text) where
  -- A guest that a pass with this memo leaves alone.
  abbrev IsSettled : Memo → Listed → Type 0
  IsSettled memo l =
      (is_skipped ctx l ≡ true)
      ⊎ (digests l.vmid ≡ none)
      ⊎ (d : Text) × (digests l.vmid ≡ some d) × (remembered l.vmid memo ≡ some d)

  pub remember-remembered :
      (v w : ℕ) (d e : Text) (memo : Memo)
      → digests v ≡ some d
      → digests w ≡ some e
      → remembered v memo ≡ some d
      → remembered v (remember w e memo) ≡ some d
  unfolding remembered
  remember-remembered v w d e memo hd he h = elim (Bool-cases (w == v)) [
    | inl same ↦ rw same (sym he ∙ ap digests (ground arith) ∙ hd)
    | inr other ↦ rw other h
  ]

  pub pass-remembered :
      (v : ℕ) (d : Text) (memo : Memo) (ls : List Listed)
      → digests v ≡ some d
      → remembered v memo ≡ some d
      → remembered v (pass ctx digests memo ls).0 ≡ some d
  unfolding pass
  pass-remembered v d memo [] hd h = h
  pass-remembered v d memo (l ∷ ls) hd h = elim (Bool-cases (is_skipped ctx l)) [
    | inl skip ↦ rw skip (pass-remembered v d memo ls hd h)
    | inr take ↦ elim (Option-cases (digests l.vmid)) [
      | inl nothing ↦ rw (take, nothing) (pass-remembered v d memo ls hd h)
      | inr (e, found) ↦ elim (Bool-cases (is_digest e (remembered l.vmid memo))) [
        | inl known ↦ rw (take, found, known) (pass-remembered v d memo ls hd h)
        | inr fresh ↦
            rw (take, found, fresh)
              (pass-remembered v d (remember l.vmid e memo) ls hd
                (remember-remembered v l.vmid d e memo hd found h))
      ]
    ]
  ]

  pub remember_self : (v : ℕ) (d : Text) (memo : Memo) → remembered v (remember v d memo) ≡ some d
  unfolding remembered
  remember_self v d memo = ground arith

  -- One guest: the memo that the rest of the walk starts with, with which that guest is settled.
  pass-step :
      (memo : Memo) (l : Listed) (ls : List Listed)
      → (m : Memo) × ((pass ctx digests memo (l ∷ ls)).0 ≡ (pass ctx digests m ls).0)
        × IsSettled m l
  unfolding pass
  pass-step memo l ls = elim (Bool-cases (is_skipped ctx l)) [
    | inl skip ↦ (memo, rw skip refl, inl skip)
    | inr take ↦ elim (Option-cases (digests l.vmid)) [
      | inl nothing ↦ (memo, rw (take, nothing) refl, inr (inl nothing))
      | inr (d, found) ↦ elim (Bool-cases (is_digest d (remembered l.vmid memo))) [
        | inl known ↦ (
          memo,
          rw (take, found, known) refl,
          inr (inr (d, found, is_digest_sound d (remembered l.vmid memo) known)),
        )
        | inr fresh ↦ (
          remember l.vmid d memo,
          rw (take, found, fresh) refl,
          inr (inr (d, found, remember_self l.vmid d memo)),
        )
      ]
    ]
  ]

  IsSettled-later :
      (memo : Memo) (l : Listed) (ls : List Listed)
      → IsSettled memo l
      → IsSettled (pass ctx digests memo ls).0 l
  IsSettled-later memo l ls (inl skip) = inl skip
  IsSettled-later memo l ls (inr (inl nothing)) = inr (inl nothing)
  IsSettled-later memo l ls (inr (inr (d, found, known))) =
      inr (inr (d, found, pass-remembered l.vmid d memo ls found known))

  pass-IsSettled :
      (memo : Memo) (ls : List Listed) → All (IsSettled (pass ctx digests memo ls).0) ls
  pass-IsSettled memo [] = tt
  pass-IsSettled memo (l ∷ ls) =
      let (m, e, here) = pass-step memo l ls in
      subst (λ n. All (IsSettled n) (l ∷ ls)) (sym e)
        (IsSettled-later m l ls here, pass-IsSettled m ls)

  IsSettled-pass :
      (memo : Memo) (ls : List Listed)
      → All (IsSettled memo) ls
      → pass ctx digests memo ls ≡ (memo, [])
  unfolding pass
  IsSettled-pass memo [] h = refl
  IsSettled-pass memo (l ∷ ls) (inl skip, hs) = rw skip (IsSettled-pass memo ls hs)
  IsSettled-pass memo (l ∷ ls) (inr (inl nothing), hs) = elim (Bool-cases (is_skipped ctx l)) [
    | inl skip ↦ rw skip (IsSettled-pass memo ls hs)
    | inr take ↦ rw (take, nothing) (IsSettled-pass memo ls hs)
  ]
  IsSettled-pass memo (l ∷ ls) (inr (inr (d, found, known)), hs) =
      elim (Bool-cases (is_skipped ctx l)) [
        | inl skip ↦ rw skip (IsSettled-pass memo ls hs)
        | inr take ↦ rw (take, found, known, text_eq_refl d) (IsSettled-pass memo ls hs)
      ]

  -- A second pass over the same guests, with documents that have not changed, works on no guest and
  -- leaves the memo as it is, also where the work of the first pass failed.
  pub pass_twice :
      (memo : Memo) (ls : List Listed)
      → pass ctx digests (pass ctx digests memo ls).0 ls ≡ ((pass ctx digests memo ls).0, [])
  pass_twice memo ls = IsSettled-pass (pass ctx digests memo ls).0 ls (pass-IsSettled memo ls)
