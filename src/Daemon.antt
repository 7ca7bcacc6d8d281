-- ===== src/Daemon.antt =====
-- src/ops/daemon.rs: `pass`, one walk over the guests of a node.
pub mod Memo
pub mod Poll
pub mod Tests
use pve_compose.Base.{
  ℕ, Bool, true, false, not, ◌&&◌, ◌||◌, Option, none, some, List, [], ◌∷◌, Text, text_eq, ◌==◌,
  if◌then◌else◌,
}
use pve_compose.Doc.{Mode, auto, manual, Policy}
use pve_compose.Pct.Listing.{Listed}
use pve_compose.Ops.{Ctx, selected}
use pve_compose.Apply.Docker.{Options}

-- The map from guests to the digests of their documents.
abbrev pub Memo : Type 0
Memo = List (ℕ × Text)

pub remembered : ℕ → Memo → Option Text
remembered vmid [] = none
remembered vmid ((v, digest) ∷ memo) = if v == vmid then some digest else remembered vmid memo

abbrev pub remember : ℕ → Text → Memo → Memo
remember vmid digest memo = (vmid, digest) ∷ memo

abbrev pub is_digest : Text → Option Text → Bool
is_digest digest none = false
is_digest digest (some d) = text_eq d digest

abbrev pub is_skipped : Ctx → Listed → Bool
is_skipped ctx l = l.is_template || not l.running || not (selected ctx l.tags)

-- `digests` is what `doc::read` gives: the digest of a guest's document, or `none` where it has no
-- document or it cannot be read. The result is the memo behind the pass and the guests that it
-- worked on, in their order; the work on one guest may fail, and it is remembered all the same.
module _ (ctx : Ctx) (digests : ℕ → Option Text) where
  pub pass : Memo → List Listed → Memo × List ℕ
  pass memo [] = (memo, [])
  pass memo (l ∷ ls) =
      let skipped = pass memo ls in
      if is_skipped ctx l then skipped else elim (digests l.vmid) [
        | none ↦ skipped
        | some d ↦
            let (memo', handled) = pass (remember l.vmid d memo) ls in
            if is_digest d (remembered l.vmid memo) then skipped else (memo', l.vmid ∷ handled)
      ]

abbrev is_auto : Mode → Bool
is_auto auto = true
is_auto manual = false

-- The halves that the document's policy allows, and how the docker half is asked for. `applied` is
-- whether the facts in the guest name the document's digest.
abbrev pub runs_pct : Policy → Bool
runs_pct policy = is_auto policy.pct

abbrev pub runs_docker : Policy → (applied : Bool) → Bool
runs_docker policy applied = is_auto policy.docker && not applied

abbrev pub options : Policy → Options
options policy = record {
  pull = is_auto policy.pull;
  no_up = not (is_auto policy.up);
  only_if_up = true;
}
