-- ===== src/Apply/Vars.antt =====
-- src/ops/apply.rs: `vars` and `render`.
use pve_compose.Base.{[], Option, none, some, Text, Result, ok, ◌>>=◌}
use pve_compose.Spec.Yaml.{Value}
use pve_compose.Spec.Bounds.{SpecError, split_owner}
use pve_compose.Spec.Render.{Vars, render}
use pve_compose.Ops.{Ctx, Guest, owner, project}

or_empty : Option Text → Text
or_empty none = []
or_empty (some s) = s

pub vars : Ctx → Guest → Result SpecError Vars
vars ctx g = do
  (uid, gid) ← split_owner (owner ctx g)
  ok (record {
    vmid = g.config.vmid;
    uid = uid;
    gid = gid;
    name = or_empty g.config.hostname;
    project = project g;
  })

pub rendered : Ctx → Guest → Result SpecError Value
rendered ctx g = do vs ← vars ctx g; ok (render g.read.doc.spec g.volumes vs)
