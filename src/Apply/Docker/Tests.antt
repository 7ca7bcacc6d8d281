-- ===== src/Apply/Docker/Tests.antt =====
-- `docker_apply_guest` at a concrete guest, and the theorems there.
use pve_compose.Base.{
  ◌≡◌, refl, Bool, true, false, none, some, List, [], ◌∷◌, ◌++◌, codes, text_dec, any, length, ltb,
  is_some,
}
use pve_compose.Spec.Yaml.{Value, null, string, mapping, end, entry}
use pve_compose.Base.Calls.{AllSucceed}
use pve_compose.Stack.{Facts}
use pve_compose.Apply.Docker.{
  Options, Action, write_facts, Guest, has_services, is_up, actions, docker_apply_guest,
}
use pve_compose.Apply.Docker.Consent.{
  is_compose_up, is_write_facts, docker_apply_guest-starts, docker_apply_guest-facts,
}

abbrev spec : Value
spec =
    mapping
      (entry (string (codes "services")) (mapping (entry (string (codes "web")) null end)) end)

-- The daemon's options where `policy.up` is `auto`.
abbrev looped : Options
looped = record { pull = true; no_up = false; only_if_up = true }

abbrev guest : Guest
guest = record {
  compose = some (codes "old");
  containers =
      record {
        name = codes "web-1";
        service = codes "web";
        state = codes "running";
        status = codes "Up";
      }
      ∷ [];
  facts = none;
}

abbrev all_run : List Action → Bool
all_run _ = true

abbrev made : (List Action → Bool) → Options → List Action
made runs o =
    (docker_apply_guest runs (codes "now") (codes "1") o (codes "1000:1000") [] spec (codes "new")
      (codes "d1") guest).1

brought_up : any is_compose_up (made all_run looped) ≡ true
unfolding docker_apply_guest text_dec
brought_up = refl

recorded : any is_write_facts (made all_run looped) ≡ true
unfolding docker_apply_guest text_dec
recorded = refl

-- The guest fails the sixth call, which is the write of the compose file.
not_recorded : any is_write_facts (made (λ as'. ltb (length as') 6) looped) ≡ false
unfolding docker_apply_guest text_dec
not_recorded = refl

docker_apply_guest-starts_example :
    (looped.no_up ≡ false)
    × (has_services spec ≡ true)
    × (looped.only_if_up ≡ true → (is_some guest.compose ≡ true) × (is_up guest.containers ≡ true))
docker_apply_guest-starts_example =
    docker_apply_guest-starts all_run (codes "now") (codes "1") looped (codes "1000:1000") [] spec
      (codes "new") (codes "d1") guest brought_up

docker_apply_guest-facts_example :
    (before : List Action) × (f : Facts) × (actions
        (codes "now")
        (codes "1")
        looped
        (codes "1000:1000")
        []
        spec
        (codes "new")
        (codes "d1")
        guest
      ≡ before ++ write_facts f ∷ [])
    × (made all_run looped ≡ before ++ write_facts f ∷ [])
    × AllSucceed all_run [] before
    × (any is_write_facts before ≡ false)
docker_apply_guest-facts_example =
    docker_apply_guest-facts all_run (codes "now") (codes "1") looped (codes "1000:1000") [] spec
      (codes "new") (codes "d1") guest recorded
