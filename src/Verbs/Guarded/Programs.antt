-- ===== src/Verbs/Guarded/Programs.antt =====
-- The verbs, one by one: what needs the guest's lock is done under it, and on a guest that runs.
use native.Mathlib.Omega.{arith}
use pve_compose.Base.{
  ℕ, ◌≡◌, subst, Bool, true, false, List, Text, Result, ok, >>=-eq-ok, ◌==◌, Bool-cases, inl, inr,
  Option, none, some,
}
use pve_compose.Doc.{Policy}
use pve_compose.Cli.{
  Cmd, apply, diff, status, upgrade, new, config, pct, docker, daemon, PctCmd, DockerCmd, compose,
  apply_options, upgrade_options, compose_args, CliError, ConfigCmd, set, unset,
}
use pve_compose.Apply.Docker.{Options}
use pve_compose.Daemon.{runs_pct, runs_docker}
use pve_compose.Ops.New.{NewArgs, WrapperSpec}
use pve_compose.Verbs
use pve_compose.Verbs.{Event, Verb, run_verb, pct_apply, docker_apply, docker_upgrade, guest_pass}
use pve_compose.Verbs.Dispatch.{Handler, on_guest, dispatch}
use pve_compose.Verbs.Guarded.{no_guard, IsGuarded, whole, run_verb-IsGuarded}

same_vmid : (v : ℕ) → (v == v) ≡ true
same_vmid v = ground arith

abbrev WholeIsGuarded : Verb → Type 0
WholeIsGuarded verb = IsGuarded no_guard (whole verb)

pct_apply-IsGuarded : (v : ℕ) → WholeIsGuarded (pct_apply v)
unfolding pct_apply
pct_apply-IsGuarded v = rw (same_vmid v) (ground arith)

docker_apply-IsGuarded : (v : ℕ) (o : Options) → WholeIsGuarded (docker_apply v o)
unfolding docker_apply
docker_apply-IsGuarded v o = rw (same_vmid v) (ground arith)

apply-IsGuarded : (v : ℕ) (o : Options) (changed : Bool) → WholeIsGuarded (Verbs.apply v o changed)
unfolding Verbs.apply Verbs.apply_locked
apply-IsGuarded v o true = rw (same_vmid v) (ground arith)
apply-IsGuarded v o false = rw (same_vmid v) (ground arith)

upgrade-IsGuarded :
    (v : ℕ) (o : Options) (changed : Bool) → WholeIsGuarded (Verbs.upgrade v o changed)
unfolding Verbs.upgrade
upgrade-IsGuarded v o changed = apply-IsGuarded v o changed

docker_upgrade-IsGuarded : (v : ℕ) (o : Options) → WholeIsGuarded (docker_upgrade v o)
unfolding docker_upgrade
docker_upgrade-IsGuarded v o = docker_apply-IsGuarded v o

compose-IsGuarded : (v : ℕ) (args : List Text) → WholeIsGuarded (Verbs.compose v args)
unfolding Verbs.compose
compose-IsGuarded v args = rw (same_vmid v) (ground arith)

new-IsGuarded :
    (w : WrapperSpec) (no_up changed : Bool) → WholeIsGuarded (Verbs.new w no_up changed)
unfolding Verbs.new Verbs.apply_locked
new-IsGuarded w no_up true = rw (same_vmid w.vmid) (ground arith)
new-IsGuarded w no_up false = rw (same_vmid w.vmid) (ground arith)

guest_pass-whole :
    (v : ℕ) (policy : Policy) (changed applied : Bool)
    → WholeIsGuarded (guest_pass v policy changed applied)
unfolding guest_pass
guest_pass-whole v policy changed applied = elim (Bool-cases (runs_pct policy)) [
  | inl allowed ↦ elim (Bool-cases changed) [
    | inl more ↦ elim (Bool-cases (runs_docker policy applied)) [
      | inl asked ↦ rw (allowed, more, asked, same_vmid v) (ground arith)
      | inr left ↦ rw (allowed, more, left, same_vmid v) (ground arith)
    ]
    | inr nothing ↦ elim (Bool-cases (runs_docker policy applied)) [
      | inl asked ↦ rw (allowed, nothing, asked, same_vmid v) (ground arith)
      | inr left ↦ rw (allowed, nothing, left, same_vmid v) (ground arith)
    ]
  ]
  | inr refused ↦ elim (Bool-cases (runs_docker policy applied)) [
    | inl asked ↦ rw (refused, asked, same_vmid v) (ground arith)
    | inr left ↦ rw (refused, left) (ground arith)
  ]
]

-- The work of the daemon on one guest touches it under its lock only, and only when it was listed as
-- running, whichever halves the policy allows and wherever a call fails.
pub guest_pass-IsGuarded :
    (runs : List Event → Bool) (v : ℕ) (policy : Policy) (changed applied : Bool)
    → IsGuarded no_guard (run_verb runs (guest_pass v policy changed applied)).1
guest_pass-IsGuarded runs v policy changed applied =
    run_verb-IsGuarded runs (guest_pass v policy changed applied)
      (guest_pass-whole v policy changed applied)

-- Of a command that comes to a verb on one guest, whichever of its calls fails: a pct half, a docker
-- half, a compose verb and a write of facts happen while the lock of that guest is held and behind the
-- finding that the guest runs, or the start of it; a start happens while the lock is held; and no lock
-- is taken that is held. Nothing is said of the creation of a guest by `new` and the write of its
-- document, which come before the lock.
pub dispatch-IsGuarded :
    (changed : Bool) (wrapper : NewArgs → WrapperSpec) (runs : List Event → Bool) (c : Cmd)
    (verb : Verb)
    → dispatch changed wrapper c ≡ ok (on_guest verb)
    → IsGuarded no_guard (run_verb runs verb).1
unfolding dispatch
dispatch-IsGuarded changed wrapper runs c verb h = run_verb-IsGuarded runs verb (all c h)
  where
    guarded :
        {u : Verb}
        → WholeIsGuarded u
        → Path (Result CliError Handler) (ok (on_guest u)) (ok (on_guest verb))
        → WholeIsGuarded verb
    guarded {u} g e = subst WholeIsGuarded (on_guest_injective e) g
      where
        on_guest_injective :
            Path (Result CliError Handler) (ok (on_guest u)) (ok (on_guest verb)) → u ≡ verb
        on_guest_injective e = cc e

    pct_cases :
        (p : PctCmd) → dispatch changed wrapper (pct p) ≡ ok (on_guest verb) → WholeIsGuarded verb
    pct_cases (apply a) h = guarded (pct_apply-IsGuarded a.vmid) h
    pct_cases (diff v) h = absurd (cc h)
    pct_cases (status s) h = absurd (cc h)

    docker_cases :
        (d : DockerCmd)
        → dispatch changed wrapper (docker d) ≡ ok (on_guest verb)
        → WholeIsGuarded verb
    docker_cases (apply a) h = guarded (docker_apply-IsGuarded a.vmid (apply_options a)) h
    docker_cases (diff v) h = absurd (cc h)
    docker_cases (status s) h = absurd (cc h)
    docker_cases (upgrade v) h = guarded (docker_upgrade-IsGuarded v upgrade_options) h
    docker_cases (compose args) h =
        let ((v, rest), _, e) = >>=-eq-ok (compose_args args) _ h in
        guarded (compose-IsGuarded v rest) e

    not_config :
        (c : Option ConfigCmd) → dispatch changed wrapper (config c) ≡ ok (on_guest verb) → ⊥
    not_config none h = cc h
    not_config (some (set key value)) h = cc h
    not_config (some (unset key)) h = cc h

    all : (c : Cmd) → dispatch changed wrapper c ≡ ok (on_guest verb) → WholeIsGuarded verb
    all (apply a) h = guarded (apply-IsGuarded a.vmid (apply_options a) changed) h
    all (diff v) h = absurd (cc h)
    all (status s) h = absurd (cc h)
    all (upgrade v) h = guarded (upgrade-IsGuarded v upgrade_options changed) h
    all (new a) h = guarded (new-IsGuarded (wrapper a) a.no_up changed) h
    all (config c) h = absurd (not_config c h)
    all (pct p) h = pct_cases p h
    all (docker d) h = docker_cases d h
    all daemon h = absurd (cc h)
