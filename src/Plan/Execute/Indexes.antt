-- ===== src/Plan/Execute/Indexes.antt =====
-- The `mpN` indexes that src/plan.rs allocates while it runs a plan.
use native.Mathlib.Omega.{arith}
use pve_compose.Base.{
  ℕ, zero, suc, ◌+◌, ◌≤◌, ◌<◌, ◌≡◌, refl, sym, ◌∙◌, subst, Bool, true, false, List, [], ◌∷◌, ◌++◌,
  append_assoc, append-nil, Text, ◌==◌, Bool-cases, inl, inr,
}
use pve_compose.Pct.Guest.{GuestConfig, used_indexes, contains_index, free_mp_index}
use pve_compose.Plan.Build.{
  Op, set_features, add_tag, create_disk, create_bind, resize, set_backup, Plan,
}
use pve_compose.Plan.Execute.{
  Call, set_options, resize_disk, largest, skip, take_index, mp_arg, call, execute_from, execute,
}

contains_index-le : (used : List ℕ) (i : ℕ) → contains_index used i ≡ true → i ≤ largest used
contains_index-le [] i h = absurd (cc h)
contains_index-le (j ∷ used) i h = elim (Bool-cases (j == i)) [
  | inl here ↦ ground arith
  | inr other ↦ ground (arith, contains_index-le used i)
]

-- The least index from `next` on that is not in use.
abbrev pub IsNextFree : List ℕ → ℕ → ℕ → Type 0
IsNextFree used next i =
    (next ≤ i)
    × (contains_index used i ≡ false)
    × ((j : ℕ) → next ≤ j → j < i → contains_index used j ≡ true)

skip-IsNextFree :
    (fuel : ℕ) (used : List ℕ) (next : ℕ)
    → largest used < next + fuel
    → IsNextFree used next (skip fuel used next)
unfolding skip
skip-IsNextFree zero used next h = (omega arith, unused, λ j a b. absurd (omega arith))
  where
    unused : contains_index used next ≡ false
    unused = elim (Bool-cases (contains_index used next)) [
      | inl there ↦ absurd (omega (arith, contains_index-le used next there))
      | inr free ↦ free
    ]
skip-IsNextFree (suc fuel) used next h =
    let (up, free, taken) = skip-IsNextFree fuel used (next + 1) (omega arith) in
    elim (Bool-cases (contains_index used next)) [
      | inl there ↦ rw there (omega arith, free, λ j a b. below there j a (taken j) b)
      | inr unused ↦ rw unused (omega arith, unused, λ j a b. absurd (omega arith))
    ]
  where
    below :
        {k : ℕ}
        → contains_index used next ≡ true
        → (j : ℕ) → next ≤ j
        → (next + 1 ≤ j → j < k → contains_index used j ≡ true)
        → j < k
        → contains_index used j ≡ true
    below there j a later b = elim (Bool-cases (j == next)) [
      | inl same ↦ subst (λ i. contains_index used i ≡ true) (ground arith) there
      | inr other ↦ later (ground arith) b
    ]

-- The loop that takes an index ends at the least free one.
pub take_index-IsNextFree : (used : List ℕ) (next : ℕ) → IsNextFree used next (take_index used next)
unfolding take_index
take_index-IsNextFree used next = skip-IsNextFree (suc (largest used)) used next (omega arith)

-- The first argument of a `pct set`.
abbrev pub Sets : Call → Text → Type 0
Sets (set_options []) arg = ⊥
Sets (set_options (a ∷ args)) arg = a ≡ arg
Sets (resize_disk disk size) arg = ⊥

-- The calls are those of the operations in their order, as far as the run got, and a creation takes
-- an index that no mount uses and that is above those that the creations before it took.
abbrev pub AllocatesFresh : List ℕ → ℕ → List Op → List Call → Type 0
AllocatesFresh used next ops [] = Unit
AllocatesFresh used next [] (c ∷ cs) = ⊥
AllocatesFresh used next (create_disk mp st size b ∷ ops) (c ∷ cs) =
    (i : ℕ) × IsNextFree used next i × Sets c (mp_arg i) × AllocatesFresh used (i + 1) ops cs
AllocatesFresh used next (create_bind mp path ∷ ops) (c ∷ cs) =
    (i : ℕ) × IsNextFree used next i × Sets c (mp_arg i) × AllocatesFresh used (i + 1) ops cs
AllocatesFresh used next (_ ∷ ops) (c ∷ cs) = AllocatesFresh used next ops cs

module _ (runs : List Call → Bool) (g : GuestConfig) (used : List ℕ) where
  -- One more call in front, for an operation whose own calls are behind it.
  step-AllocatesFresh :
      (next : ℕ) (op : Op) (ops : List Op) (cs : List Call)
      → AllocatesFresh used (call g used next op).1 ops cs
      → AllocatesFresh used next (op ∷ ops) ((call g used next op).0 ∷ cs)
  unfolding call
  step-AllocatesFresh next (set_features s) ops cs h = h
  step-AllocatesFresh next (add_tag t) ops cs h = h
  step-AllocatesFresh next (create_disk mp st size b) ops cs h =
      (take_index used next, take_index-IsNextFree used next, refl, h)
  step-AllocatesFresh next (create_bind mp path) ops cs h =
      (take_index used next, take_index-IsNextFree used next, refl, h)
  step-AllocatesFresh next (resize key mp from to) ops cs h = h
  step-AllocatesFresh next (set_backup m b) ops cs h = h

  execute_from-AllocatesFresh :
      (next : ℕ) (made : List Call) (ops : List Op)
      → (cs : List Call) × ((execute_from runs g used next made ops).1 ≡ made ++ cs)
        × AllocatesFresh used next ops cs
  unfolding execute_from
  execute_from-AllocatesFresh next made [] = ([], sym (append-nil made), tt)
  execute_from-AllocatesFresh next made (op ∷ ops) =
      let (c, next') = call g used next op in
      elim (Bool-cases (runs (made ++ c ∷ []))) [
        | inl ran ↦
            let (cs, e, h) = execute_from-AllocatesFresh next' (made ++ c ∷ []) ops in
            (
              c ∷ cs,
              rw ran (e ∙ append_assoc made (c ∷ []) cs),
              step-AllocatesFresh next op ops cs h,
            )
        | inr failed ↦ (c ∷ [], rw failed refl, step-AllocatesFresh next op ops [] tt)
      ]

-- Whatever calls PVE fails, the calls of a run are in step with the plan's operations, and every
-- mount point is created at an index that is free, above those that the run created before.
pub execute-AllocatesFresh :
    (runs : List Call → Bool) (g : GuestConfig) (p : Plan)
    → AllocatesFresh (used_indexes g.mounts) (free_mp_index g) p.ops (execute runs g p).1
unfolding execute
execute-AllocatesFresh runs g p =
    let (cs, e, fresh) =
      execute_from-AllocatesFresh runs g (used_indexes g.mounts) (free_mp_index g) [] p.ops in
    rw e fresh
