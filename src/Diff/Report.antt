-- ===== src/Diff/Report.antt =====
-- src/ops/diff.rs: what `pct_diff_guest` and `docker_diff_guest` print.
use pve_compose.Base.{
  Option, none, some, List, [], ◌∷◌, ◌++◌, map, Text, text_eq, is_empty, not, if◌then◌else◌,
}
use pve_compose.Plan.Build.{Op, Note, Plan}
use pve_compose.Stack.{Facts}
use pve_compose.Diff.{line_diff}

pub data PctLine : Type 0 where
  note : Note → PctLine
  up_to_date : PctLine
  op : Op → PctLine

pub pct_diff : Plan → List PctLine
pct_diff p = map note p.notes ++ (if is_empty p.ops then up_to_date ∷ [] else map op p.ops)

pub data DockerLine : Type 0 where
  unchanged : (applied_at : Text) → DockerLine
  changed : (applied_at : Text) → DockerLine
  never_applied : DockerLine
  differs : (diff : Text) → DockerLine
  current : DockerLine

facts_line : Text → Option Facts → DockerLine
facts_line digest none = never_applied
facts_line digest (some f) =
    if text_eq f.digest digest then unchanged f.applied_at else changed f.applied_at

file_or_empty : Option Text → Text
file_or_empty none = []
file_or_empty (some text) = text

-- `want` is the rendered file, `have` the one in the guest.
pub docker_diff : (want digest : Text) → (have : Option Text) → Option Facts → List DockerLine
docker_diff want digest have facts =
    let had = file_or_empty have in
    facts_line digest facts
    ∷ (if not (text_eq had want) then differs (line_diff had want) else current)
    ∷ []
