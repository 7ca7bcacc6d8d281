-- ===== src/Verbs/Guarded.antt =====
-- What holds when a verb works on a guest: its lock is held, and the guest is known to run.
pub mod Programs
use native.Mathlib.Omega.{arith}
use pve_compose.Base.{
  ℕ, ◌≡◌, refl, sym, subst, ap, ◌∙◌, Bool, true, false, List, [], ◌∷◌, ◌++◌, append_assoc,
  append-nil, ◌==◌, if◌then◌else◌, Bool-cases, inl, inr,
}
use pve_compose.Base.Calls.{run, run-prefix}
use pve_compose.Verbs.{
  Event, take_lock, drop_lock, require_running, listed_running, load_guest, refresh_config,
  pct_half, docker_half, passthrough, settle, create_wrapper, write_document, start, wait_ready,
  read_facts, write_facts, Verb, locked, run_verb,
}

-- The guests whose lock is held, and those that were seen to run or were started.
pub record Guard : Type 0 where
  pub own : ℕ → Bool
  pub awake : ℕ → Bool

abbrev pub no_guard : Guard
no_guard = record { own = λ v. false; awake = λ v. false }

abbrev pub set_at : ℕ → Bool → (ℕ → Bool) → ℕ → Bool
set_at v b f w = if w == v then b else f w

abbrev pub guard_after : Event → Guard → Guard
guard_after (take_lock v) s = record s { own = set_at v true s.own }
guard_after (drop_lock v) s = record s { own = set_at v false s.own }
guard_after (require_running v) s = record s { awake = set_at v true s.awake }
guard_after (listed_running v) s = record s { awake = set_at v true s.awake }
guard_after (start v) s = record s { awake = set_at v true s.awake }
guard_after _ s = s

-- A half, a compose verb and the facts need the lock and a guest that runs; a start needs the lock. A
-- lock that is held is not taken again. The creation of a guest and the write of its document, which
-- `new` makes before it takes the lock, need nothing.
abbrev pub IsAllowed : Guard → Event → Type 0
IsAllowed s (pct_half v) = (s.own v ≡ true) × (s.awake v ≡ true)
IsAllowed s (docker_half v o) = (s.own v ≡ true) × (s.awake v ≡ true)
IsAllowed s (passthrough v args) = (s.own v ≡ true) × (s.awake v ≡ true)
IsAllowed s (write_facts v t) = (s.own v ≡ true) × (s.awake v ≡ true)
IsAllowed s (start v) = s.own v ≡ true
IsAllowed s (take_lock v) = s.own v ≡ false
IsAllowed s _ = Unit

abbrev pub IsGuarded : Guard → List Event → Type 0
IsGuarded s [] = Unit
IsGuarded s (e ∷ es) = IsAllowed s e × IsGuarded (guard_after e s) es

pub IsGuarded-prefix :
    (s : Guard) (es rest : List Event) → IsGuarded s (es ++ rest) → IsGuarded s es
IsGuarded-prefix s [] rest h = tt
IsGuarded-prefix s (e ∷ es) rest (here, h) = (here, IsGuarded-prefix (guard_after e s) es rest h)

pub IsGuarded-drop :
    (s : Guard) (es : List Event) (v : ℕ) → IsGuarded s es → IsGuarded s (es ++ drop_lock v ∷ [])
IsGuarded-drop s [] v _ = (tt, tt)
IsGuarded-drop s (e ∷ es) v (here, h) = (here, IsGuarded-drop (guard_after e s) es v h)

-- All that a verb may come to do.
abbrev pub whole : Verb → List Event
whole verb = (verb.before ++ take_lock verb.vmid ∷ []) ++ verb.body

run-IsGuarded :
    (runs : List Event → Bool) (s : Guard) (made todo : List Event)
    → IsGuarded s (made ++ todo)
    → IsGuarded s (run runs made todo).1
run-IsGuarded runs s made todo h =
    let (rest, e) = run-prefix runs made todo in
    IsGuarded-prefix s (run runs made todo).1 rest (subst (IsGuarded s) (sym e) h)

run_complete :
    (runs : List Event → Bool) (made todo : List Event)
    → (run runs made todo).0 ≡ true
    → (run runs made todo).1 ≡ made ++ todo
unfolding run
run_complete runs made [] h = sym (append-nil made)
run_complete runs made (a ∷ todo) h = elim (Bool-cases (runs (made ++ a ∷ []))) [
  | inl ran ↦
      rw ran
        (run_complete runs (made ++ a ∷ []) todo (rw ran at h) ∙ append_assoc made (a ∷ []) todo)
  | inr failed ↦ absurd (cc (rw failed at h))
]

-- A verb whose calls are all guarded stays so wherever it ends.
pub run_verb-IsGuarded :
    (runs : List Event → Bool) (verb : Verb)
    → IsGuarded no_guard (whole verb)
    → IsGuarded no_guard (run_verb runs verb).1
unfolding run_verb locked
run_verb-IsGuarded runs verb h = elim (Bool-cases (run runs [] verb.before).0) [
  | inl ready ↦
      rw (ready, run_complete runs [] verb.before ready)
        (elim (Bool-cases (runs (verb.before ++ take_lock verb.vmid ∷ []))) [
          | inl taken ↦ rw taken (
              IsGuarded-drop no_guard _ verb.vmid
                (run-IsGuarded runs no_guard (verb.before ++ take_lock verb.vmid ∷ []) verb.body h))
          | inr not_taken ↦ rw not_taken before
        ])
  | inr failed ↦ rw failed (run-IsGuarded runs no_guard [] verb.before before)
]
  where
    before : IsGuarded no_guard verb.before
    before = IsGuarded-prefix no_guard verb.before (take_lock verb.vmid ∷ verb.body) (
        subst (IsGuarded no_guard) (append_assoc verb.before (take_lock verb.vmid ∷ []) verb.body)
          h)
