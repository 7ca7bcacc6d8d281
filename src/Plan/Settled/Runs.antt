-- ===== src/Plan/Settled/Runs.antt =====
-- A whole run of the calls of src/plan.rs, and the wrapper's config behind it.
use pve_compose.Base.{
  ℕ, ◌≡◌, refl, sym, ◌∙◌, Bool, true, List, [], ◌∷◌, ◌++◌, append_assoc, append-nil, Bool-cases,
  inl, inr,
}
use pve_compose.Pct.Guest.{GuestConfig}
use pve_compose.Plan.Build.{Op}
use pve_compose.Plan.Execute.{Call, call, execute_from}
use pve_compose.Plan.Execute.Documented.{behind_all}

module _ (after : Call → GuestConfig → GuestConfig) (g₀ : GuestConfig) (used : List ℕ) where
  -- The index counter and the config behind the calls for the operations.
  abbrev pub run_ops : List Op → ℕ × GuestConfig → ℕ × GuestConfig
  run_ops [] s = s
  run_ops (op ∷ ops) (next, g) =
      let (c, next') = call g₀ used next op in run_ops ops (next', after c g)

  pub run_ops-append :
      (ops more : List Op) (s : ℕ × GuestConfig)
      → run_ops (ops ++ more) s ≡ run_ops more (run_ops ops s)
  run_ops-append [] more s = refl
  run_ops-append (op ∷ ops) more (next, g) =
      run_ops-append ops more ((call g₀ used next op).1, after (call g₀ used next op).0 g)

  module _ (runs : List Call → Bool) where
    -- The calls of a run that PVE failed nowhere.
    pub execute_from-run_ops :
        (ops : List Op) (next : ℕ) (g : GuestConfig) (made : List Call)
        → (execute_from runs g₀ used next made ops).0 ≡ true
        → (cs : List Call) × ((execute_from runs g₀ used next made ops).1 ≡ made ++ cs)
          × (behind_all after g cs ≡ (run_ops ops (next, g)).1)
    unfolding execute_from
    execute_from-run_ops [] next g made h = ([], sym (append-nil made), refl)
    execute_from-run_ops (op ∷ ops) next g made h =
        let (c, next') = call g₀ used next op in
        elim (Bool-cases (runs (made ++ c ∷ []))) [
          | inl ran ↦
              let (cs, e, behind) =
                execute_from-run_ops ops next' (after c g) (made ++ c ∷ []) (rw ran at h) in
              (c ∷ cs, rw ran (e ∙ append_assoc made (c ∷ []) cs), behind)
          | inr failed ↦ absurd (cc (rw failed at h))
        ]
