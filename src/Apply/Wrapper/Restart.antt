-- ===== src/Apply/Wrapper/Restart.antt =====
-- When the pct half of src/ops/apply.rs succeeds.
use pve_compose.Base.{
  ℕ, suc, ◌≡◌, refl, ap, ◌∙◌, Bool, true, false, not, List, [], ◌∷◌, ◌++◌, any, length,
  if◌then◌else◌, inl, inr, Result, ok, err, ok-injective, sym, append-nil, append_assoc, Bool-cases,
}
use pve_compose.Base.Calls.{AllSucceed}
use pve_compose.Ops.{Ctx, Guest}
use pve_compose.Pct.Guest.{GuestConfig, used_indexes, free_mp_index}
use pve_compose.Plan.Build.{Op, Note, Plan, PlanError}
use pve_compose.Plan.Execute.{Call, call, execute_from, execute}
use pve_compose.Apply.Wrapper.{
  ApplyError, pct_failed, restart_needed, pct_plan, is_set_features, pct_apply_plan,
  pct_apply_guest,
}

-- A run that succeeds makes one call for each operation, and each of them succeeds.
execute_from-AllSucceed :
    (runs : List Call → Bool) (g : GuestConfig) (used : List ℕ) (next : ℕ) (made : List Call)
    (ops : List Op)
    → (execute_from runs g used next made ops).0 ≡ true
    → (cs : List Call) × ((execute_from runs g used next made ops).1 ≡ made ++ cs)
      × (length cs ≡ length ops)
      × AllSucceed runs made cs
unfolding execute_from
execute_from-AllSucceed runs g used next made [] h = ([], sym (append-nil made), refl, tt)
execute_from-AllSucceed runs g used next made (op ∷ ops) h =
    let (c, next') = call g used next op in
    elim (Bool-cases (runs (made ++ c ∷ []))) [
      | inl ran ↦
          let (cs, all, count, succeeded) =
            execute_from-AllSucceed runs g used next' (made ++ c ∷ []) ops (rw ran at h) in
          (c ∷ cs, rw ran (all ∙ append_assoc made (c ∷ []) cs), ap suc count, (ran, succeeded))
      | inr failed ↦ absurd (cc (rw failed at h))
    ]

settled :
    (x f : Bool) (n k : ℕ)
    → Path
        (Result ApplyError ℕ)
        (if not x then err pct_failed else if f then err restart_needed else ok k)
        (ok n)
    → (n ≡ k) × (x ≡ true) × (f ≡ false)
settled true true n k h = absurd (cc h)
settled true false n k h = (sym (ok-injective h), refl, refl)
settled false f n k h = absurd (cc h)

-- The pct half with the result `n` and these calls.
abbrev pub Applied : (List Call → Bool) → Plan → ℕ → List Call → Type 0
Applied runs p n calls =
    (n ≡ length p.ops)
    × (any is_set_features p.ops ≡ false)
    × (length calls ≡ n)
    × AllSucceed runs [] calls

abbrev plan_with : List Op → List Note → Plan
plan_with ops notes = record { ops = ops; notes = notes }

done :
    (runs : List Call → Bool) (g : Guest) (ops : List Op) (notes : List Note) (n : ℕ)
    → (pct_apply_plan runs g (ok (plan_with ops notes))).0 ≡ ok n
    → Applied runs (plan_with ops notes) n (pct_apply_plan runs g (ok (plan_with ops notes))).1
unfolding pct_apply_plan execute
done runs g [] notes n h = (sym (ok-injective h), refl, ok-injective h, tt)
done runs g (op ∷ ops) notes n h =
    let p = plan_with (op ∷ ops) notes in
    let (count, ran, kept) =
      settled (execute runs g.config p).0 (any is_set_features (op ∷ ops)) n (length (op ∷ ops))
        h in
    let (cs, all, one_each, succeeded) =
      execute_from-AllSucceed runs g.config (used_indexes g.config.mounts) (free_mp_index g.config)
        [] (op ∷ ops) ran in
    (count, kept, rw all (one_each ∙ sym count), rw all succeeded)

pct_apply_plan-Applied :
    (runs : List Call → Bool) (g : Guest) (r : Result PlanError Plan) (n : ℕ)
    → (pct_apply_plan runs g r).0 ≡ ok n
    → (p : Plan) × (r ≡ ok p) × Applied runs p n (pct_apply_plan runs g r).1
unfolding pct_apply_plan
pct_apply_plan-Applied runs g (err e) n h = absurd (cc h)
pct_apply_plan-Applied runs g (ok p) n h = (p, refl, done runs g p.ops p.notes n h)

-- The pct half succeeds only with a plan that changes no feature, so that nothing waits for a restart
-- of the guest; it has then made one call of pct for each operation of the plan, each of which has
-- succeeded, and its result is their number.
pub pct_apply_guest-Applied :
    (runs : List Call → Bool) (ctx : Ctx) (g : Guest) (n : ℕ)
    → (pct_apply_guest runs ctx g).0 ≡ ok n
    → (p : Plan) × (pct_plan ctx g ≡ ok p) × Applied runs p n (pct_apply_guest runs ctx g).1
unfolding pct_apply_guest
pct_apply_guest-Applied runs ctx g n h = pct_apply_plan-Applied runs g (pct_plan ctx g) n h
