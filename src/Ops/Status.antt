-- ===== src/Ops/Status.antt =====
-- src/ops/status.rs: the rows of `status`.
pub mod Applied
pub mod Tests
use pve_compose.Base.{
  ℕ, zero, suc, ◌-◌, Bool, true, false, not, ◌&&◌, Option, none, some, List, [], ◌∷◌, ◌++◌, map,
  any, is_empty, Text, codes, text_eq, length, leb, ltb, ◌==◌, if◌then◌else◌, Result, ok, err,
}
use pve_compose.Base.Decimal.{show}
use pve_compose.Doc.{Mode, auto, manual, Policy}
use pve_compose.Spec.Yaml.{Value}
use pve_compose.Spec.Volumes.{XPve}
use pve_compose.Pct.Guest.{GuestConfig}
use pve_compose.Pct.Listing.{Listed}
use pve_compose.Plan.Build.{Plan, PlanError}
use pve_compose.Stack.{Facts}
use pve_compose.Ops.{Ctx, Read, Guest, LoadError, load_with, selected}
use pve_compose.Apply.Wrapper.{pct_plan}
use pve_compose.Apply.Docker.{Container}

pub data RowError : Type 0 where
  document_error : RowError
  load_error : LoadError → RowError
  plan_error : PlanError → RowError
  facts_error : RowError

-- The texts of `Row::state`; an error's text begins with `error: `.
pub data State : Type 0 where
  unset : State
  applied : State
  down : State
  pending : State
  never : State
  stopped : State
  no_document : State
  error : RowError → State

pub data Level : Type 0 where
  pct : Level
  docker : Level
  both : Level

pub record Row : Type 0 where
  pub vmid : ℕ
  pub name : Text
  pub node : Text
  pub running : Bool
  pub policy : Option Text
  pub state : State
  pub applied_at : Option Text
  pub template : Option Text
  pub pct_pending : Option ℕ
  pub containers : List Container

abbrev mode : Mode → Text
mode auto = codes "auto"
mode manual = codes "manual"

policy_text : Policy → Text
policy_text p =
    codes "pct=" ++ mode p.pct ++ codes " docker=" ++ mode p.docker ++ codes " pull=" ++ mode p.pull

abbrev pub bare_row : Ctx → Listed → State → Row
bare_row ctx l state = record {
  vmid = l.vmid;
  name = l.name;
  node = ctx.node;
  running = l.running;
  policy = none;
  state = state;
  applied_at = none;
  template = none;
  pct_pending = none;
  containers = [];
}

abbrev is_zero : Option ℕ → Bool
is_zero none = false
is_zero (some n) = n == 0

-- `unwrap_or(0) > 0`
abbrev is_pending : Option ℕ → Bool
is_pending none = false
is_pending (some n) = not (n == 0)

-- The `match` on the facts; an error ends the function.
abbrev with_facts : Row → (digest : Text) → Result RowError (Option Facts) → Result Row Row
with_facts r digest (err e) = err (record r { state = error e })
with_facts r digest (ok none) = ok (record r { state = never })
with_facts r digest (ok (some f)) = ok (record r {
  state = if text_eq f.digest digest then applied else pending;
  applied_at = some f.applied_at;
  template = f.template;
})

abbrev if_applied : State → State → State
if_applied instead applied = instead
if_applied instead s = s

abbrev with_pending : Row → Row
with_pending r = record r {
  state = if is_pending r.pct_pending then if_applied pending r.state else r.state;
}

abbrev pub is_running : Container → Bool
is_running c = text_eq c.state (codes "running")

abbrev listed_at : Level → List Container → List Container
listed_at both cs = cs
listed_at _ cs = []

-- A failed listing leaves the row as it is.
abbrev with_stack : Level → Option (List Container) → Row → Row
with_stack level none r = r
with_stack level (some cs) r = record r {
  containers = listed_at level cs;
  state = if any is_running cs then r.state else if_applied down r.state;
}

abbrev ended : Result Row Row → (Row → Row) → Row
ended (err r) f = r
ended (ok r) f = f r

abbrev wrapper_state : Option ℕ → State
wrapper_state pending_ops = if is_zero pending_ops then applied else pending

-- What follows the wrapper's plan.
stack_part :
    Level → (digest : Text) → Result RowError (Option Facts) → Option (List Container) → Row → Row
stack_part pct digest facts ps r = record r { state = wrapper_state r.pct_pending }
stack_part level digest facts ps r =
    ended (with_facts r digest facts) (λ r'. with_stack level ps (with_pending r'))

abbrev with_plan : Row → Result PlanError Plan → Result Row Row
with_plan r (err e) = err (record r { state = error (plan_error e) })
with_plan r (ok p) = ok (record r { pct_pending = some (length p.ops) })

wrapper_part : Level → Ctx → Guest → Row → Result Row Row
wrapper_part docker ctx g r = ok r
wrapper_part level ctx g r = with_plan r (pct_plan ctx g)

module _ (from_value : Value → Option XPve) (ctx : Ctx) (l : Listed) (level : Level)
    (config : Option GuestConfig) (facts : Result RowError (Option Facts))
    (ps : Option (List Container)) where
  loaded_part : Row → (digest : Text) → Result LoadError Guest → Row
  unfolding wrapper_part stack_part
  loaded_part r digest (err e) = record r { state = error (load_error e) }
  loaded_part r digest (ok g) =
      ended (wrapper_part level ctx g r) (stack_part level digest facts ps)

  -- `row`, for what the reads of the guest give: its config, its facts and its containers.
  unfoldable pub row : Option Read → Row
  unfolding loaded_part policy_text
  row none = bare_row ctx l no_document
  row (some read) =
      let r : Row = record (bare_row ctx l unset) { policy = some (policy_text read.doc.policy) } in
      if not l.running
      then record r { state = stopped }
      else loaded_part r read.digest (load_with from_value ctx config read)

-- What the loop of `rows` does with a container, by what `doc::read` gives; `render` is `row`.
abbrev is_other : Option ℕ → ℕ → Bool
is_other none v = false
is_other (some w) v = not (v == w)

abbrev is_none : Option ℕ → Bool
is_none none = true
is_none (some v) = false

row_of :
    Ctx
    → (asked : Option ℕ) → (Listed → Option Read → Row)
    → Listed
    → Result (Unit {0}) (Option Read)
    → List Row
row_of ctx asked render l (err e) = bare_row ctx l (error document_error) ∷ []
row_of ctx asked render l (ok none) =
    if is_none asked && not (selected ctx l.tags) then [] else render l none ∷ []
row_of ctx asked render l (ok (some read)) = render l (some read) ∷ []

unfoldable pub rows :
    Ctx
    → (asked : Option ℕ) → (read : ℕ → Result (Unit {0}) (Option Read))
    → (render : Listed → Option Read → Row) → List Listed
    → List Row
unfolding row_of
rows ctx asked read render [] = []
rows ctx asked read render (l ∷ ls) =
    let rest = rows ctx asked read render ls in
    if l.is_template
    then rest
    else if is_other asked l.vmid
    then rest
    else row_of ctx asked render l (read l.vmid) ++ rest

-- `trunc`
abbrev take_chars : ℕ → Text → Text
take_chars zero s = []
take_chars (suc n) [] = []
take_chars (suc n) (c ∷ s) = c ∷ take_chars n s

unfoldable pub trunc : Text → ℕ → Text
trunc s n = if leb (length s) n then s else take_chars (n - 1) s ++ codes "…"
