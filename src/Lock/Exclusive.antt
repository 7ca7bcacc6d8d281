-- ===== src/Lock/Exclusive.antt =====
-- src/lock.rs: processes of one node that run verbs at the same time, and whose calls come in any
-- order that the lock files admit.
use mathlib.Core.Option.{none-ne-some}
use native.Mathlib.Omega.{arith}
use pve_compose.Base.{
  ℕ, ◌≡◌, ◌⊎◌, inl, inr, sym, ap, subst, ◌∙◌, Bool, true, false, Option, none, some, List, [], ◌∷◌,
  ◌++◌, ok, ◌==◌, if◌then◌else◌, Bool-cases,
}
use pve_compose.Doc.{Policy}
use pve_compose.Cli.{Cmd}
use pve_compose.Ops.New.{NewArgs, WrapperSpec}
use pve_compose.Verbs.{
  Event, take_lock, drop_lock, pct_half, docker_half, passthrough, start, write_facts, Verb,
  run_verb, guest_pass,
}
use pve_compose.Verbs.Dispatch.{on_guest, dispatch}
use pve_compose.Verbs.Guarded.{Guard, no_guard, guard_after, IsAllowed, IsGuarded, IsGuarded-prefix}
use pve_compose.Verbs.Guarded.Programs.{guest_pass-IsGuarded, dispatch-IsGuarded}

-- Which process has the lock of a guest.
abbrev pub Holders : Type 0
Holders = ℕ → Option ℕ

abbrev pub nobody : Holders
nobody v = none

abbrev pub hold : ℕ → Option ℕ → Holders → Holders
hold v o h w = if w == v then o else h w

abbrev pub is_locking : Event → Bool
is_locking (take_lock v) = true
is_locking (drop_lock v) = true
is_locking _ = false

abbrev pub holders_after : ℕ → Event → Holders → Holders
holders_after p (take_lock v) h = hold v (some p) h
holders_after p (drop_lock v) h = hold v none h
holders_after p _ h = h

-- The calls that `flock` lets a process make, as it documents them: an exclusive lock is got when no
-- one has it, and the one who has it drops it.
abbrev pub IsGranted : Holders → ℕ → Event → Type 0
IsGranted h p (take_lock v) = h v ≡ none
IsGranted h p (drop_lock v) = h v ≡ some p
IsGranted h p _ = Unit

-- The calls of all processes, in the order in which they are made.
pub data Steps : Holders → List (ℕ × Event) → Type 0 where
  done : {h : Holders} → Steps h []
  called :
      {h : Holders} (p : ℕ) (e : Event) {tr : List (ℕ × Event)}
      → IsGranted h p e
      → Steps (holders_after p e h) tr
      → Steps h ((p, e) ∷ tr)

-- The calls of one process.
abbrev pub events_of : ℕ → List (ℕ × Event) → List Event
events_of p [] = []
events_of p ((q, e) ∷ tr) = let rest = events_of p tr in if q == p then e ∷ rest else rest

-- The guest whose lock a call needs: that of a half, a compose verb, a start or a write of facts. The
-- creation of a new guest and the write of its document come before `new` takes the lock.
abbrev pub needs_lock : Event → Option ℕ
needs_lock (pct_half v) = some v
needs_lock (docker_half v o) = some v
needs_lock (passthrough v args) = some v
needs_lock (write_facts v t) = some v
needs_lock (start v) = some v
needs_lock _ = none

abbrev pub IsHolder : Holders → ℕ → Option ℕ → Type 0
IsHolder h p none = Unit
IsHolder h p (some v) = h v ≡ some p

-- A call that needs a guest's lock comes from the process that has it at that time.
abbrev pub IsExclusive : {h : Holders} {tr : List (ℕ × Event)} → Steps h tr → Type 0
IsExclusive done = Unit
IsExclusive (called {h = h} p e granted rest) = IsHolder h p (needs_lock e) × IsExclusive rest

own_first : {v w : ℕ} → Path (Option ℕ) (some v) (some w) → v ≡ w
own_first e = cc e

-- What the processes think to hold, they hold.
abbrev Agrees : (ℕ → Guard) → Holders → Type 0
Agrees s h = (p v : ℕ) → (s p).own v ≡ true → h v ≡ some p

needed-IsHolder :
    (h : Holders) (s : ℕ → Guard) (p : ℕ) (e : Event)
    → Agrees s h
    → IsAllowed (s p) e
    → IsHolder h p (needs_lock e)
needed-IsHolder h s p (pct_half v) agrees (own, _) = agrees p v own
needed-IsHolder h s p (docker_half v o) agrees (own, _) = agrees p v own
needed-IsHolder h s p (passthrough v a) agrees (own, _) = agrees p v own
needed-IsHolder h s p (write_facts v f) agrees (own, _) = agrees p v own
needed-IsHolder h s p (start v) agrees own = agrees p v own
needed-IsHolder h s p _ agrees _ = tt

abbrev move : ℕ → Event → (ℕ → Guard) → ℕ → Guard
move p e s q = if p == q then guard_after e (s q) else s q

step-Agrees :
    (h : Holders) (p : ℕ) (e : Event) (s : ℕ → Guard)
    → IsGranted h p e
    → Agrees s h
    → Agrees (move p e s) (holders_after p e h)
step-Agrees h p (take_lock v) s free agrees q w own = elim (Bool-cases (w == v)) [
  | inl same ↦ elim (Bool-cases (p == q)) [
    | inl me ↦ rw same (ap (λ r. some r) (ground arith))
    | inr another ↦
        absurd (none-ne-some q (sym free ∙ (ap h (ground arith) ∙ agrees q w (rw another at own))))
  ]
  | inr differ ↦ rw differ (elim (Bool-cases (p == q)) [
    | inl me ↦ agrees q w (rw (me, differ) at own)
    | inr another ↦ agrees q w (rw another at own)
  ])
]
step-Agrees h p (drop_lock v) s mine agrees q w own = elim (Bool-cases (p == q)) [
  | inl me ↦ elim (Bool-cases (w == v)) [
    | inl same ↦ absurd (cc (rw (me, same) at own))
    | inr differ ↦ rw differ (agrees q w (rw (me, differ) at own))
  ]
  | inr another ↦ elim (Bool-cases (w == v)) [
    | inl same ↦ absurd (differs another same (agrees q w (rw another at own)))
    | inr differ ↦ rw differ (agrees q w (rw another at own))
  ]
]
  where
    differs : (p == q) ≡ false → (w == v) ≡ true → h w ≡ some q → ⊥
    differs another same there =
        let e = own_first (sym mine ∙ (ap h (ground arith) ∙ there)) in absurd (ground arith)
step-Agrees h p e s granted agrees q w own = elim (Bool-cases (p == q)) [
  | inl me ↦ agrees q w (rw me at own)
  | inr another ↦ agrees q w (rw another at own)
]

same_process : (p : ℕ) → (p == p) ≡ true
same_process p = ground arith

steps-IsExclusive :
    {h : Holders} {tr : List (ℕ × Event)} (s : ℕ → Guard) (st : Steps h tr)
    → Agrees s h
    → ((p : ℕ) → IsGuarded (s p) (events_of p tr))
    → IsExclusive st
steps-IsExclusive s done agrees guarded = tt
steps-IsExclusive {h = h} s (called p e {tr = calls} granted rest) agrees guarded =
    let (allowed, later) = mine in
    (
      needed-IsHolder h s p e agrees allowed,
      steps-IsExclusive (move p e s) rest (step-Agrees h p e s granted agrees) others,
    )
  where
    mine : IsAllowed (s p) e × IsGuarded (guard_after e (s p)) (events_of p calls)
    mine = let g = guarded p in rw (same_process p) at g

    others : (q : ℕ) → IsGuarded (move p e s q) (events_of q calls)
    others q = elim (Bool-cases (p == q)) [
      | inl me ↦ let g = guarded q in rw me (rw me at g).1
      | inr another ↦ let g = guarded q in rw another (rw another at g)
    ]

-- The calls of a process so far: those of a command, as far as it got, of the daemon's work on one
-- guest, which takes the lock on its own, or none.
abbrev pub IsVerbRun : List Event → Type 0
IsVerbRun events =
    (events ≡ [])
    ⊎ ((changed : Bool) × (wrapper : (NewArgs → WrapperSpec)) × (runs : (List Event → Bool))
        × (c : Cmd) × (verb : Verb) × (rest : List Event) × (dispatch changed wrapper c
            ≡ ok (on_guest verb))
        × ((run_verb runs verb).1 ≡ events ++ rest))
    ⊎ ((runs : (List Event → Bool)) × (v : ℕ) × (policy : Policy) × (changed : Bool)
        × (applied : Bool) × (rest : List Event) × ((run_verb runs
              (guest_pass v policy changed applied)).1
            ≡ events ++ rest))

verb_run-IsGuarded : (events : List Event) → IsVerbRun events → IsGuarded no_guard events
verb_run-IsGuarded events (inl nothing) = subst (IsGuarded no_guard) (sym nothing) tt
verb_run-IsGuarded events (inr (inl (changed, wrapper, runs, c, verb, rest, come, e))) =
    IsGuarded-prefix no_guard events rest
      (subst (IsGuarded no_guard) e (dispatch-IsGuarded changed wrapper runs c verb come))
verb_run-IsGuarded events (inr (inr (runs, v, policy, changed, applied, rest, e))) =
    IsGuarded-prefix no_guard events rest
      (subst (IsGuarded no_guard) e (guest_pass-IsGuarded runs v policy changed applied))

-- Commands and the daemon's work on guests at the same time, in any order of their calls that the
-- lock files admit, each as far as it got: every pct half, docker half, compose verb, start of a guest
-- and write of facts comes from the process that has that guest's lock. Nothing is said of the
-- creation of a guest by `new` and the write of its document, which come before it takes the lock.
pub verbs-IsExclusive :
    {tr : List (ℕ × Event)} (st : Steps nobody tr)
    → ((p : ℕ) → IsVerbRun (events_of p tr))
    → IsExclusive st
verbs-IsExclusive st verbs =
    steps-IsExclusive (λ p. no_guard) st (λ p v own. absurd (cc own))
      (λ p. verb_run-IsGuarded (events_of p _) (verbs p))
