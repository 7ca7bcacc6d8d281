-- ===== src/Ops/Status/Applied.antt =====
-- What the states of src/ops/status.rs say.
use native.Mathlib.Omega.{arith}
use pve_compose.Base.{
  ℕ, zero, suc, ◌≤◌, ◌-◌, ◌<◌, ◌≡◌, refl, ap, ◌∙◌, Bool, true, false, ◌&&◌, Option, none, some,
  List, [], ◌∷◌, any, is_empty, Text, text_eq, length, length-append, leb, ◌==◌, if◌then◌else◌,
  Result, ok, err, Result-cases, Bool-cases, inl, inr,
}
use pve_compose.Spec.Yaml.{Value}
use pve_compose.Spec.Volumes.{XPve}
use pve_compose.Pct.Guest.{GuestConfig}
use pve_compose.Plan.Build.{Op, Plan, PlanError}
use pve_compose.Stack.{Facts}
use pve_compose.Pct.Listing.{Listed}
use pve_compose.Ops.{Ctx, Read, Guest, LoadError, load_with}
use pve_compose.Apply.Wrapper.{pct_plan}
use pve_compose.Apply.Docker.{Container}
use pve_compose.Ops.Status.{
  Row, RowError, State, applied, unset, down, pending, never, stopped, no_document, error, both,
  with_stack, with_pending, is_running, row, loaded_part, wrapper_part, stack_part, take_chars,
  trunc, if_applied,
}

length-take_chars : (n : ℕ) (s : Text) → length (take_chars n s) ≤ n
length-take_chars zero s = omega arith
length-take_chars (suc n) [] = omega arith
length-take_chars (suc n) (c ∷ s) = omega (arith, length-take_chars n s)

-- A cell is never wider than its column.
pub length-trunc : (s : Text) (n : ℕ) → 0 < n → length (trunc s n) ≤ n
unfolding trunc
length-trunc s n h = elim (Bool-cases (leb (length s) n)) [
  | inl fits ↦ rw fits (ground (arith, fits))
  | inr over ↦
      rw over (
        omega
          (arith, length-append (take_chars (n - 1) s) (8230 ∷ []), length-take_chars (n - 1) s))
]

abbrev pub is_applied : State → Bool
is_applied applied = true
is_applied _ = false

-- What has to hold for a guest to be shown as applied: its wrapper needs nothing, its facts are those
-- of the document, and a container of the stack runs, as far as the stack could be listed.
abbrev pub wrapper_done : Result PlanError Plan → Bool
wrapper_done (err e) = false
wrapper_done (ok p) = is_empty p.ops

abbrev pub facts_done : (digest : Text) → Result RowError (Option Facts) → Bool
facts_done digest (ok (some f)) = text_eq f.digest digest
facts_done digest _ = false

abbrev pub is_up : Option (List Container) → Bool
is_up none = true
is_up (some cs) = any is_running cs

abbrev pub loaded_done :
    Ctx
    → (digest : Text) → Result LoadError Guest
    → Result RowError (Option Facts)
    → Option (List Container)
    → Bool
loaded_done ctx digest (err e) facts ps = false
loaded_done ctx digest (ok g) facts ps =
    wrapper_done (pct_plan ctx g) && facts_done digest facts && is_up ps

regroup : (a b c : Bool) → ((a && b) && c) ≡ (a && b && c)
regroup a b c = ground arith

matches : (b : Bool) → is_applied (if b then applied else pending) ≡ b
matches true = refl
matches false = refl

suc_not_zero : (n : ℕ) → (suc n == 0) ≡ false
suc_not_zero n = ground arith

instead_false :
    (s instead : State) → is_applied instead ≡ false → is_applied (if_applied instead s) ≡ false
instead_false applied instead h = h
instead_false unset instead h = refl
instead_false down instead h = refl
instead_false pending instead h = refl
instead_false never instead h = refl
instead_false stopped instead h = refl
instead_false no_document instead h = refl
instead_false (error e) instead h = refl

if_state :
    (b : Bool) (s instead : State)
    → is_applied instead ≡ false
    → is_applied (if b then s else if_applied instead s) ≡ (is_applied s && b)
if_state true s instead h = ground arith
if_state false s instead h = rw (instead_false s instead h) (ground arith)

with_stack-is_applied :
    (r : Row) (ps : Option (List Container))
    → is_applied (with_stack both ps r).state ≡ (is_applied r.state && is_up ps)
with_stack-is_applied r none = ground arith
with_stack-is_applied r (some cs) = if_state (any is_running cs) r.state down refl

with_pending-is_applied :
    (r : Row) (ops : List Op)
    → is_applied (with_pending (record r { pct_pending = some (length ops) })).state
      ≡ (is_empty ops && is_applied r.state)
with_pending-is_applied r [] = refl
with_pending-is_applied r (o ∷ ops) =
    rw (suc_not_zero (length ops)) (instead_false r.state pending refl)

stack_done :
    (r : Row) (p : Plan) (digest : Text) (facts : Result RowError (Option Facts))
    (ps : Option (List Container))
    → is_applied
        (stack_part both digest facts ps (record r { pct_pending = some (length p.ops) })).state
      ≡ (is_empty p.ops && facts_done digest facts && is_up ps)
unfolding stack_part
stack_done r p digest (err e) ps = ground arith
stack_done r p digest (ok none) ps =
    with_stack-is_applied _ ps
    ∙ ap (λ b. b && is_up ps) (with_pending-is_applied (record r { state = never }) p.ops)
    ∙ regroup (is_empty p.ops) false (is_up ps)
stack_done r p digest (ok (some f)) ps =
    with_stack-is_applied _ ps
    ∙ ap (λ b. b && is_up ps)
        (with_pending-is_applied
          (record r {
            state = if text_eq f.digest digest then applied else pending;
            applied_at = some f.applied_at;
            template = f.template;
          })
          p.ops)
    ∙ ap (λ b. (is_empty p.ops && b) && is_up ps) (matches (text_eq f.digest digest))
    ∙ regroup (is_empty p.ops) (text_eq f.digest digest) (is_up ps)

module _ (from_value : Value → Option XPve) (ctx : Ctx) (l : Listed) (config : Option GuestConfig)
    (facts : Result RowError (Option Facts)) (ps : Option (List Container)) where
  loaded_done_iff :
      (r : Row) (digest : Text) (load : Result LoadError Guest)
      → is_applied (loaded_part from_value ctx l both config facts ps r digest load).state
        ≡ loaded_done ctx digest load facts ps
  unfolding loaded_part
  loaded_done_iff r digest (err e) = refl
  loaded_done_iff r digest (ok g) = elim (Result-cases (pct_plan ctx g)) [
    | inl (e, bad) ↦ rw (wrapper_part, bad) refl
    | inr (p, good) ↦ rw (wrapper_part, good) (stack_done r p digest facts ps)
  ]

  -- `status` shows a guest with a document as applied exactly if it runs, its document loads, the plan
  -- for its wrapper is empty, its facts carry the document's digest, and a container runs, if the stack
  -- could be listed.
  pub row-is_applied :
      (read : Read)
      → is_applied (row from_value ctx l both config facts ps (some read)).state
        ≡ (l.running && loaded_done ctx read.digest (load_with from_value ctx config read) facts ps)
  unfolding row
  row-is_applied read = elim (Bool-cases l.running) [
    | inl running ↦
        rw running (loaded_done_iff _ read.digest (load_with from_value ctx config read))
    | inr halted ↦ rw halted refl
  ]
