-- ===== src/Apply/Docker.antt =====
-- src/ops/apply.rs: `docker_apply_guest`, as the actions that it takes inside the guest.
pub mod Consent
pub mod Quoted
pub mod Tests
pub mod QuotedTests
use pve_compose.Base.{
  ℕ, Bool, true, false, ◌&&◌, ◌||◌, not, Option, none, some, List, [], ◌∷◌, ◌++◌, map, any, Text,
  codes, text_eq, is_some, if◌then◌else◌, Result, ok, err,
}
use pve_compose.Base.Calls.{run}
use pve_compose.Spec.Yaml.{Value, Mapping, end, entry, as_mapping, get}
use pve_compose.Spec.Volumes.{Volume, dir}
use pve_compose.Stack.{Facts, facts_now}

pub record Options : Type 0 where
  pub pull : Bool
  pub no_up : Bool
  pub only_if_up : Bool

pub record Container : Type 0 where
  pub name : Text
  pub service : Text
  pub state : Text
  pub status : Text

-- What is done in the guest, with the reads and the rendering, which can fail.
pub data Action : Type 0 where
  ensure_docker : Action
  ensure_layout : (owners : List (Text × Text)) → Action
  render : Action
  read_compose : Action
  ps : Action
  write_compose : (text : Text) → Action
  pull_images : Action
  compose_up : Action
  read_facts : Action
  write_facts : (facts : Facts) → Action

-- What the guest holds before the run: the compose file, the stack's containers and the facts.
pub record Guest : Type 0 where
  pub compose : Option Text
  pub containers : List Container
  pub facts : Option Facts

abbrev pub owner_or : Text → Option Text → Text
owner_or default none = default
owner_or default (some o) = o

abbrev pub owners : Text → List Volume → List (Text × Text)
owners default vs = map (λ (v : Volume). (dir v, owner_or default v.owner)) vs

abbrev not_empty_map : Option Mapping → Bool
not_empty_map none = false
not_empty_map (some end) = false
not_empty_map (some (entry k v m)) = true

abbrev mapping_of : Option Value → Option Mapping
mapping_of none = none
mapping_of (some v) = as_mapping v

unfoldable pub has_services : Value → Bool
unfolding get as_mapping
has_services spec = not_empty_map (mapping_of (get (codes "services") spec))

abbrev pub is_up : List Container → Bool
is_up = any (λ (c : Container). text_eq c.state (codes "running"))

abbrev pub differs : Option Text → Text → Bool
differs none text = true
differs (some current) text = not (text_eq current text)

-- The actions in their order. `&&` asks for the containers only when a compose file is there.
abbrev asks_ps : Options → Value → Guest → Bool
asks_ps o spec g = not o.no_up && has_services spec && o.only_if_up && is_some g.compose

unfoldable pub starts : Options → Value → Guest → Bool
unfolding has_services
starts o spec g =
    if o.no_up || not (has_services spec)
    then false
    else if o.only_if_up
    then is_some g.compose && is_up g.containers
    else true

abbrev when : Bool → List Action → List Action
when true actions = actions
when false actions = []

-- The calls of the function in their order. `text` is the rendered file, and `now` and `version` go
-- into the facts.
module _ (now version : Text) where
  unfoldable pub actions :
      Options
      → (default_owner : Text) → List Volume
      → Value
      → (text digest : Text) → Guest
      → List Action
  unfolding starts
  actions o default_owner vs spec text digest g =
      ensure_docker
      ∷ ensure_layout (owners default_owner vs)
      ∷ render
      ∷ read_compose
      ∷ (when (asks_ps o spec g) (ps ∷ [])
          ++ when (differs g.compose text) (write_compose text ∷ [])
          ++ when (starts o spec g) (when o.pull (pull_images ∷ []) ++ compose_up ∷ [])
          ++ read_facts ∷ write_facts (facts_now now version digest g.facts) ∷ [])

-- Every call may fail, which ends the function: `runs` says of the calls made whether the last one
-- succeeded. The result is whether all did, and the calls.
module _ (runs : List Action → Bool) where
  -- The `Ok` is whether the stack was brought up.
  unfoldable pub docker_apply_guest :
      (now version : Text)
      → Options
      → (default_owner : Text) → List Volume
      → Value
      → (text digest : Text) → Guest
      → Option Bool × List Action
  unfolding run actions
  docker_apply_guest now version o default_owner vs spec text digest g =
      let (done, made) = run runs [] (actions now version o default_owner vs spec text digest g) in
      (if done then some (starts o spec g) else none, made)
