-- ===== src/Daemon/Poll/Once.antt =====
-- The loop of src/ops/daemon.rs over many rounds: a guest that was worked on is left alone.
use pve_compose.Base.{
  ℕ, ◌-◌, ◌≡◌, inl, inr, refl, sym, ap, subst, ◌∙◌, Bool, true, false, not, ◌||◌, Option, none,
  some, List, [], ◌∷◌, Text, text_eq, text_eq_refl, Any, leb, if◌then◌else◌, Bool-cases,
  Option-cases,
}
use mathlib.Core.Option.{some-injective}
use pve_compose.Config.{Config}
use pve_compose.Ops.{Ctx}
use pve_compose.Pct.Listing.{Listed}
use pve_compose.Daemon.{Memo, remembered, remember, is_digest, is_skipped, pass}
use pve_compose.Daemon.Memo.{remember-remembered, pass-remembered, remember_self}
use pve_compose.Daemon.Poll.{State, reload, pass_of, poll}

-- The guest is among those worked on.
abbrev pub WorkedOn : ℕ → List ℕ → Type 0
WorkedOn v = Any (λ w. w ≡ v)

known_digest : (d : Text) (o : Option Text) → o ≡ some d → is_digest d o ≡ true
known_digest d none e = absurd (cc e)
known_digest d (some t) e = ap (text_eq t) (sym (some-injective t d e)) ∙ text_eq_refl t

module _ (ctx : Ctx) (digests : ℕ → Option Text) (v : ℕ) (d : Text) (has : digests v ≡ some d) where
  same_digest : (l : Listed) (e : Text) → digests l.vmid ≡ some e → l.vmid ≡ v → e ≡ d
  same_digest l e found here = some-injective e d (sym found ∙ (ap digests here ∙ has))

  pass-WorkedOn :
      (memo : Memo) (ls : List Listed)
      → WorkedOn v (pass ctx digests memo ls).1
      → remembered v (pass ctx digests memo ls).0 ≡ some d
  unfolding pass
  pass-WorkedOn memo [] h = absurd h
  pass-WorkedOn memo (l ∷ ls) h = elim (Bool-cases (is_skipped ctx l)) [
    | inl skip ↦ rw skip (pass-WorkedOn memo ls (rw skip at h))
    | inr take ↦ elim (Option-cases (digests l.vmid)) [
      | inl nothing ↦ rw (take, nothing) (pass-WorkedOn memo ls (rw (take, nothing) at h))
      | inr (e, found) ↦ elim (Bool-cases (is_digest e (remembered l.vmid memo))) [
        | inl known ↦ rw (take, found, known) (pass-WorkedOn memo ls (rw (take, found, known) at h))
        | inr fresh ↦
            rw (take, found, fresh)
              (elim (rw (take, found, fresh) at h) [
                | inl here ↦ pass-remembered ctx digests v d (remember l.vmid e memo) ls has (
                    subst (λ w. remembered w (remember l.vmid e memo) ≡ some d) here
                      (remember_self ctx digests l.vmid e memo
                        ∙ ap (λ t. some t) (same_digest l e found here)))
                | inr later ↦ pass-WorkedOn (remember l.vmid e memo) ls later
              ])
      ]
    ]
  ]

  pass_again :
      (memo : Memo) (ls : List Listed)
      → remembered v memo ≡ some d
      → ¬ WorkedOn v (pass ctx digests memo ls).1
  unfolding pass
  pass_again memo [] known h = h
  pass_again memo (l ∷ ls) known h = elim (Bool-cases (is_skipped ctx l)) [
    | inl skip ↦ pass_again memo ls known (rw skip at h)
    | inr take ↦ elim (Option-cases (digests l.vmid)) [
      | inl nothing ↦ pass_again memo ls known (rw (take, nothing) at h)
      | inr (e, found) ↦ elim (Bool-cases (is_digest e (remembered l.vmid memo))) [
        | inl same ↦ pass_again memo ls known (rw (take, found, same) at h)
        | inr fresh ↦ elim (rw (take, found, fresh) at h) [
          | inl here ↦ absurd (
              cc (
                sym fresh
                ∙ known_digest e (remembered l.vmid memo) (
                    ap (λ w. remembered w memo) here
                    ∙ (known ∙ ap (λ t. some t) (sym (same_digest l e found here))))))
          | inr later ↦
              pass_again (remember l.vmid e memo) ls
                (remember-remembered ctx digests v l.vmid d e memo has found known) later
        ]
      ]
    ]
  ]

-- What a round of the loop finds outside.
pub record Round : Type 0 where
  pub digests : ℕ → Option Text
  pub now : ℕ
  pub token : Option Text
  pub loaded : Option Config
  pub listed : Option (List Listed)

module _ (same : Config → Config → Bool) (full_every v : ℕ) (d : Text) where
  abbrev pub next : State → Round → State × List ℕ
  next s i = poll same i.digests full_every i.now i.token i.loaded i.listed s

  -- The guest's document is the one, no full pass is due, and the config is as before.
  abbrev pub IsQuiet : State → Round → Type 0
  IsQuiet s i =
      (i.digests v ≡ some d)
      × (leb full_every (i.now - s.last_full) ≡ false)
      × ((c : Config) → i.loaded ≡ some c → same c s.ctx.config ≡ true)

  abbrev pub AreQuiet : State → List Round → Type 0
  AreQuiet s [] = Unit
  AreQuiet s (i ∷ is) = IsQuiet s i × AreQuiet (next s i).0 is

  -- No round works on the guest.
  abbrev pub IsLeft : State → List Round → Type 0
  IsLeft s [] = Unit
  IsLeft s (i ∷ is) = (¬ WorkedOn v (next s i).1) × IsLeft (next s i).0 is

  reload-same :
      (o : Option Config) (s : State)
      → ((c : Config) → o ≡ some c → same c s.ctx.config ≡ true)
      → reload same o s ≡ s
  unfolding reload
  reload-same none s h = refl
  reload-same (some c) s h = rw (h c refl) refl

  pass_of_again :
      (digests : ℕ → Option Text) (o : Option (List Listed)) (s : State)
      → digests v ≡ some d
      → remembered v s.memo ≡ some d
      → (¬ WorkedOn v (pass_of digests o s).1)
        × (remembered v (pass_of digests o s).0.memo ≡ some d)
  unfolding pass_of
  pass_of_again digests none s has known = (λ h. h, known)
  pass_of_again digests (some ls) s has known = (
    pass_again s.ctx digests v d has s.memo ls known,
    pass-remembered s.ctx digests v d s.memo ls has known,
  )

  quiet_round :
      (s : State) (i : Round)
      → IsQuiet s i
      → remembered v s.memo ≡ some d
      → (¬ WorkedOn v (next s i).1) × (remembered v (next s i).0.memo ≡ some d)
  unfolding poll
  quiet_round s i (has, not_due, unchanged) known = elim (Option-cases i.token) [
    | inl failed ↦ rw failed (λ h. h, known)
    | inr (token, there) ↦
        rw (there, not_due, reload-same i.loaded s unchanged)
          (elim (Bool-cases (not (text_eq token s.last_token) || false)) [
            | inl moved ↦ rw moved (pass_of_again i.digests i.listed s has known)
            | inr still ↦ rw still (λ h. h, known)
          ])
  ]

  rounds-IsLeft :
      (is : List Round) (s : State) → AreQuiet s is → remembered v s.memo ≡ some d → IsLeft s is
  rounds-IsLeft [] s _ known = tt
  rounds-IsLeft (i ∷ is) s (quiet, quiets) known =
      let (left, later) = quiet_round s i quiet known in
      (left, rounds-IsLeft is (next s i).0 quiets later)

  pass_of-WorkedOn :
      (digests : ℕ → Option Text) (o : Option (List Listed)) (s : State)
      → digests v ≡ some d
      → WorkedOn v (pass_of digests o s).1
      → remembered v (pass_of digests o s).0.memo ≡ some d
  unfolding pass_of
  pass_of-WorkedOn digests none s has h = absurd h
  pass_of-WorkedOn digests (some ls) s has h = pass-WorkedOn s.ctx digests v d has s.memo ls h

  round-WorkedOn :
      (s : State) (i : Round)
      → i.digests v ≡ some d
      → WorkedOn v (next s i).1
      → remembered v (next s i).0.memo ≡ some d
  unfolding poll
  round-WorkedOn s i has h = elim (Option-cases i.token) [
    | inl failed ↦ absurd (rw failed at h)
    | inr (token, there) ↦
        let full = leb full_every (i.now - s.last_full) in
        let s₁ = reload same i.loaded s in
        let s₂ = if full then record s₁ { memo = []; last_full = i.now } else s₁ in
        elim (Bool-cases (not (text_eq token s.last_token) || full)) [
          | inl moved ↦
              rw (there, moved)
                (pass_of-WorkedOn i.digests i.listed s₂ has (rw (there, moved) at h))
          | inr still ↦ absurd (rw (there, still) at h)
        ]
  ]

  -- A guest that a round has worked on, also where the work failed, is left alone in the rounds that
  -- follow, as long as its document is the same, no full pass is due and the config does not change.
  pub poll-IsLeft :
      (s : State) (i : Round) (is : List Round)
      → i.digests v ≡ some d
      → WorkedOn v (next s i).1
      → AreQuiet (next s i).0 is
      → IsLeft (next s i).0 is
  poll-IsLeft s i is has h quiet = rounds-IsLeft is (next s i).0 quiet (round-WorkedOn s i has h)
