-- ===== src/Apply/Wrapper.antt =====
-- src/ops/apply.rs: `pct_apply_guest`, with the calls of pct that it makes.
pub mod Restart
pub mod Tests
use pve_compose.Base.{
  ℕ, Bool, true, false, not, List, [], ◌∷◌, any, is_empty, length, if◌then◌else◌, Result, ok, err,
}
use pve_compose.Ops.{Ctx, Guest}
use pve_compose.Plan.Build.{
  Op, set_features, add_tag, create_disk, create_bind, resize, set_backup, Plan, PlanError, Inputs,
  build,
}
use pve_compose.Plan.Execute.{Call, execute}

abbrev pub inputs : Ctx → Guest → Inputs
inputs ctx g = record {
  node = ctx.node;
  config = ctx.config;
  tag = ctx.tag;
  guest = g.config;
  volumes = g.volumes;
}

pub pct_plan : Ctx → Guest → Result PlanError Plan
pct_plan ctx g = build (inputs ctx g)

abbrev pub is_set_features : Op → Bool
is_set_features (set_features s) = true
is_set_features _ = false

pub data ApplyError : Type 0 where
  plan_refused : PlanError → ApplyError
  pct_failed : ApplyError
  restart_needed : ApplyError

module _ (runs : List Call → Bool) where
  pub pct_apply_plan : Guest → Result PlanError Plan → Result ApplyError ℕ × List Call
  pct_apply_plan g (err e) = (err (plan_refused e), [])
  pct_apply_plan g (ok p) =
      let (executed, calls) = execute runs g.config p in
      if is_empty p.ops then (ok 0, []) else (
        if not executed
            then err pct_failed
            else if any is_set_features p.ops
            then err restart_needed
            else ok (length p.ops),
        calls,
      )

  -- The number of operations run, or the error, and the calls in both cases.
  unfoldable pub pct_apply_guest : Ctx → Guest → Result ApplyError ℕ × List Call
  unfolding pct_apply_plan pct_plan
  pct_apply_guest ctx g = pct_apply_plan g (pct_plan ctx g)
