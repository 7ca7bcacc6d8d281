-- ===== src/Verbs.antt =====
-- src/main.rs, src/ops/apply.rs, src/ops/upgrade.rs, src/ops/new.rs and src/ops/daemon.rs: the verbs,
-- as the calls that they make in their order, and the lock of the guest around them.
pub mod Dispatch
pub mod Guarded
pub mod Tests
use pve_compose.Base.{ℕ, Bool, true, false, not, ◌&&◌, List, [], ◌∷◌, ◌++◌, Text, if◌then◌else◌}
use pve_compose.Base.Calls.{run}
use pve_compose.Doc.{Policy}
use pve_compose.Apply.Docker.{Options}
use pve_compose.Daemon.{runs_pct, runs_docker, options}
use pve_compose.Ops.New.{WrapperSpec, create_args, initial_document}

-- `take_lock` is a lock that was got: one that was not got in time ends the verb without an event.
pub data Event : Type 0 where
  take_lock : (vmid : ℕ) → Event
  drop_lock : (vmid : ℕ) → Event
  require_running : (vmid : ℕ) → Event
  listed_running : (vmid : ℕ) → Event
  load_guest : (vmid : ℕ) → Event
  refresh_config : (vmid : ℕ) → Event
  pct_half : (vmid : ℕ) → Event
  docker_half : (vmid : ℕ) (o : Options) → Event
  passthrough : (vmid : ℕ) (args : List Text) → Event
  settle : (vmid : ℕ) → Event
  create_wrapper : (vmid : ℕ) (args : List Text) → Event
  write_document : (vmid : ℕ) (text : Text) → Event
  start : (vmid : ℕ) → Event
  wait_ready : (vmid seconds : ℕ) → Event
  read_facts : (vmid : ℕ) → Event
  write_facts : (vmid : ℕ) (template : Text) → Event

-- What a verb does before it holds a lock, and the guest whose lock it takes for the rest.
pub record Verb : Type 0 where
  pub before : List Event
  pub vmid : ℕ
  pub body : List Event

abbrev when : Bool → List Event → List Event
when b events = if b then events else []

unfoldable pub pct_apply : ℕ → Verb
pct_apply v = record {
  before = [];
  vmid = v;
  body = require_running v ∷ load_guest v ∷ pct_half v ∷ [];
}

unfoldable pub docker_apply : ℕ → Options → Verb
docker_apply v o = record {
  before = [];
  vmid = v;
  body = require_running v ∷ load_guest v ∷ docker_half v o ∷ [];
}

-- `changed` is whether the pct half says that it changed something.
unfoldable pub apply_locked : ℕ → Options → (changed : Bool) → List Event
apply_locked v o changed =
    (require_running v ∷ load_guest v ∷ pct_half v ∷ [])
    ++ when changed (refresh_config v ∷ [])
    ++ docker_half v o ∷ []

unfoldable pub apply : ℕ → Options → (changed : Bool) → Verb
unfolding apply_locked
apply v o changed = record { before = []; vmid = v; body = apply_locked v o changed }

unfoldable pub upgrade : ℕ → Options → (changed : Bool) → Verb
unfolding apply
upgrade v o changed = apply v o changed

unfoldable pub docker_upgrade : ℕ → Options → Verb
unfolding docker_apply
docker_upgrade v o = docker_apply v o

abbrev pub new_options : (no_up : Bool) → Options
new_options no_up = record { pull = false; no_up = no_up; only_if_up = false }

-- `new` behind what it has settled: the wrapper, its document, and its first apply.
unfoldable pub new : WrapperSpec → (no_up changed : Bool) → Verb
unfolding apply_locked create_args
new w no_up changed =
    let v = w.vmid in
    record {
      before = settle v ∷ create_wrapper v (create_args w) ∷ write_document v initial_document ∷ [];
      vmid = v;
      body =
          (start v ∷ wait_ready v 90 ∷ [])
          ++ apply_locked v (new_options no_up) changed
          ++ read_facts v ∷ write_facts v w.template ∷ require_running v ∷ [];
    }

-- `docker <verb> <vmid> …`, a compose verb passed through.
unfoldable pub compose : ℕ → List Text → Verb
compose v args = record {
  before = [];
  vmid = v;
  body = require_running v ∷ passthrough v args ∷ [];
}

-- What the daemon does for one guest of a pass, whose document is new to it.
unfoldable pub guest_pass : ℕ → Policy → (changed applied : Bool) → Verb
guest_pass v policy changed applied = record {
  before = listed_running v ∷ [];
  vmid = v;
  body =
      (load_guest v ∷ [])
      ++ when (runs_pct policy) (pct_half v ∷ when changed (refresh_config v ∷ []))
      ++ read_facts v ∷ when (runs_docker policy applied) (docker_half v (options policy) ∷ []);
}

-- Every call may fail, which ends the verb, and the lock is dropped wherever it ends. The result is
-- whether all calls succeeded, and what has happened.
module _ (runs : List Event → Bool) where
  locked : (made : List Event) → Verb → Bool × List Event
  locked made verb =
      let taken = made ++ take_lock verb.vmid ∷ [] in
      let (done, events) = run runs taken verb.body in
      if runs taken then (done, events ++ drop_lock verb.vmid ∷ []) else (false, made)

  unfoldable pub run_verb : Verb → Bool × List Event
  unfolding locked run
  run_verb verb =
      let (ready, made) = run runs [] verb.before in
      let rest = locked made verb in if ready then rest else (false, made)
