-- ===== src/Apply/Docker/Consent.antt =====
-- When `docker_apply_guest` of src/ops/apply.rs starts a stack, and when it records an apply.
use native.Mathlib.Omega.{arith}
use pve_compose.Base.{
  ◌≡◌, refl, sym, subst, ◌∙◌, ap, Bool, true, false, ◌&&◌, ◌||◌, not, List, [], ◌∷◌, ◌++◌,
  append_assoc, any, Text, is_some, if◌then◌else◌, Bool-cases, inl, inr,
}
use pve_compose.Base.Calls.{run, run-prefix, AllSucceed}
use pve_compose.Spec.Yaml.{Value}
use pve_compose.Spec.Volumes.{Volume}
use pve_compose.Stack.{Facts, facts_now}
use pve_compose.Apply.Docker.{
  Options, Action, ensure_docker, ensure_layout, render, read_compose, ps, write_compose,
  pull_images, compose_up, read_facts, write_facts, Guest, has_services, is_up, differs, asks_ps,
  starts, owners, when, actions, docker_apply_guest,
}

abbrev pub is_compose_up : Action → Bool
is_compose_up compose_up = true
is_compose_up _ = false

abbrev pub is_write_facts : Action → Bool
is_write_facts (write_facts f) = true
is_write_facts _ = false

any-append :
    (p : Action → Bool) (as' bs : List Action) → any p (as' ++ bs) ≡ (any p as' || any p bs)
any-append p [] bs = refl
any-append p (a ∷ as') bs = ground (arith, any-append p as' bs)

-- Below the check of the start, no call starts the stack.
up-starts :
    (b c d e : Bool) (text : Text) (f : Action)
    → is_compose_up f ≡ false
    → any is_compose_up (
        when b (ps ∷ [])
        ++ when c (write_compose text ∷ [])
        ++ when d (when e (pull_images ∷ []) ++ compose_up ∷ [])
        ++ read_facts ∷ f ∷ [])
      ≡ d
up-starts true true true true text f h = refl
up-starts true true true false text f h = refl
up-starts true true false e text f h = rw h refl
up-starts true false true true text f h = refl
up-starts true false true false text f h = refl
up-starts true false false e text f h = rw h refl
up-starts false true true true text f h = refl
up-starts false true true false text f h = refl
up-starts false true false e text f h = rw h refl
up-starts false false true true text f h = refl
up-starts false false true false text f h = refl
up-starts false false false e text f h = rw h refl

decision :
    (n s u c r : Bool)
    → (if n || not s then false else if u then c && r else true) ≡ true
    → (n ≡ false) × (s ≡ true) × (u ≡ true → (c ≡ true) × (r ≡ true))
decision n s u c r h = (ground arith, ground arith, λ only. (ground arith, ground arith))

starts_lem :
    (o : Options) (spec : Value) (g : Guest)
    → starts o spec g ≡ true
    → (o.no_up ≡ false)
      × (has_services spec ≡ true)
      × (o.only_if_up ≡ true → (is_some g.compose ≡ true) × (is_up g.containers ≡ true))
unfolding starts
starts_lem o spec g h =
    decision o.no_up (has_services spec) o.only_if_up (is_some g.compose) (is_up g.containers) h

front : (b c d e : Bool) → Text → List Action
front b c d e text =
    when b (ps ∷ [])
    ++ when c (write_compose text ∷ [])
    ++ when d (when e (pull_images ∷ []) ++ compose_up ∷ [])

front-facts :
    (b c d e : Bool) (text : Text)
    → any is_write_facts (front b c d e text ++ read_facts ∷ []) ≡ false
unfolding front
front-facts true true true true text = refl
front-facts true true true false text = refl
front-facts true true false e text = refl
front-facts true false true true text = refl
front-facts true false true false text = refl
front-facts true false false e text = refl
front-facts false true true true text = refl
front-facts false true true false text = refl
front-facts false true false e text = refl
front-facts false false true true text = refl
front-facts false false true false text = refl
front-facts false false false e text = refl

or_false : (a b : Bool) → (a || b) ≡ false → (a ≡ false) × (b ≡ false)
or_false a b h = (ground arith, ground arith)

any-snoc :
    (p : Action → Bool) (made : List Action) (a : Action)
    → any p made ≡ false
    → p a ≡ false
    → any p (made ++ a ∷ []) ≡ false
any-snoc p made a m h = any-append p made (a ∷ []) ∙ rw (m, h) refl

-- A run whose last call writes facts and whose other calls do not.
run-facts :
    (runs : List Action → Bool) (made todo : List Action) (f : Facts)
    → any is_write_facts todo ≡ false
    → any is_write_facts made ≡ false
    → any is_write_facts (run runs made (todo ++ write_facts f ∷ [])).1 ≡ true
    → ((run runs made (todo ++ write_facts f ∷ [])).1 ≡ made ++ (todo ++ write_facts f ∷ []))
      × AllSucceed runs made todo
unfolding run
run-facts runs made [] f t m h = elim (Bool-cases (runs (made ++ write_facts f ∷ []))) [
  | inl ran ↦ rw ran (refl, tt)
  | inr failed ↦ rw failed (refl, tt)
]
run-facts runs made (a ∷ todo) f t m h =
    let (ta, ts) = or_false (is_write_facts a) (any is_write_facts todo) t in
    let m' = any-snoc is_write_facts made a m ta in
    elim (Bool-cases (runs (made ++ a ∷ []))) [
      | inl ran ↦
          let (all, succeeded) = run-facts runs (made ++ a ∷ []) todo f ts m' (rw ran at h) in
          rw ran (all ∙ append_assoc made (a ∷ []) (todo ++ write_facts f ∷ []), (refl, succeeded))
      | inr failed ↦ absurd (cc (rw (failed, m') at h))
    ]

module _ (runs : List Action → Bool) (now version : Text) (o : Options) (default_owner : Text)
    (vs : List Volume) (spec : Value) (text digest : Text) (g : Guest) where
  -- `docker compose up` is called only when the caller did not refuse it, when the document has
  -- services and, for a caller that asks for it, when the stack is up: a compose file is there and
  -- one of its containers runs.
  pub docker_apply_guest-starts :
      any is_compose_up
          (docker_apply_guest runs now version o default_owner vs spec text digest g).1
        ≡ true
      → (o.no_up ≡ false)
        × (has_services spec ≡ true)
        × (o.only_if_up ≡ true → (is_some g.compose ≡ true) × (is_up g.containers ≡ true))
  unfolding docker_apply_guest actions
  docker_apply_guest-starts h =
      let (rest, e) =
        run-prefix runs [] (actions now version o default_owner vs spec text digest g) in
      let made = (docker_apply_guest runs now version o default_owner vs spec text digest g).1 in
      let facts = write_facts (facts_now now version digest g.facts) in
      starts_lem o spec g (
        sym (
          up-starts (asks_ps o spec g) (differs g.compose text) (starts o spec g) o.pull text facts
            refl)
        ∙ (ap (any is_compose_up) (sym e) ∙ (any-append is_compose_up made rest ∙ rw h refl)))

  -- If facts are written, they are written by the last call of an apply, which made all of its calls,
  -- and every call before it has succeeded: no run that was cut short, or in which a call failed,
  -- records its document as applied.
  pub docker_apply_guest-facts :
      any is_write_facts
          (docker_apply_guest runs now version o default_owner vs spec text digest g).1
        ≡ true
      → (before : List Action) × (f : Facts) × (actions now version o default_owner vs spec text
            digest g
          ≡ before ++ write_facts f ∷ [])
        × ((docker_apply_guest runs now version o default_owner vs spec text digest g).1
            ≡ before ++ write_facts f ∷ [])
        × AllSucceed runs [] before
        × (any is_write_facts before ≡ false)
  unfolding docker_apply_guest actions front
  docker_apply_guest-facts h =
      let f = facts_now now version digest g.facts in
      let middle =
        front (asks_ps o spec g) (differs g.compose text) (starts o spec g) o.pull text in
      let start = λ (l : List Action).
        ensure_docker ∷ ensure_layout (owners default_owner vs) ∷ render ∷ read_compose ∷ l in
      let before = start (middle ++ read_facts ∷ []) in
      let whole = ap start (append_assoc middle (read_facts ∷ []) (write_facts f ∷ [])) in
      let none_before =
        front-facts (asks_ps o spec g) (differs g.compose text) (starts o spec g) o.pull text in
      let (made, succeeded) =
        run-facts runs [] before f none_before refl
          (subst (λ l. any is_write_facts (run runs [] l).1 ≡ true) (sym whole) h) in
      (before, f, sym whole, ap (λ l. (run runs [] l).1) (sym whole) ∙ made, succeeded, none_before)
