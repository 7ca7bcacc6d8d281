-- ===== src/Plan/Execute.antt =====
-- src/plan.rs: `execute`, as the `pct` calls that it makes.
pub mod Indexes
pub mod Documented
pub mod Tests
use Prim.Native.Nat.{max}
use pve_compose.Base.{
  ℕ, zero, suc, ◌+◌, Bool, true, false, Option, none, some, List, [], ◌∷◌, ◌++◌, Text, codes, join,
  length, if◌then◌else◌,
}
use pve_compose.Base.Decimal.{show}
use pve_compose.Size.{Size, to_pct_resize}
use pve_compose.Size.Gib.{to_pct_gib}
use pve_compose.Pct.Mount.{Mount, print}
use pve_compose.Pct.Guest.{GuestConfig, used_indexes, contains_index, free_mp_index}
use pve_compose.Plan.Build.{
  Op, set_features, add_tag, create_disk, create_bind, resize, set_backup, Plan,
}

-- One call of `pct set <vmid>` or `pct resize <vmid>`.
pub data Call : Type 0 where
  set_options : (args : List Text) → Call
  resize_disk : (disk size : Text) → Call

abbrev pub largest : List ℕ → ℕ
largest [] = 0
largest (i ∷ is) = max i (largest is)

-- `while used.contains(&next) { next += 1; }`. Past the largest used index the loop has ended.
pub skip : ℕ → List ℕ → ℕ → ℕ
skip zero used next = next
skip (suc fuel) used next =
    let later = skip fuel used (next + 1) in if contains_index used next then later else next

unfoldable pub take_index : List ℕ → ℕ → ℕ
take_index used next = skip (suc (largest used)) used next

abbrev pub flag_text : Bool → Text
flag_text true = codes "1"
flag_text false = codes "0"

abbrev pub mp_arg : ℕ → Text
mp_arg i = codes "--mp" ++ show i

abbrev pub tags_arg : GuestConfig → Text → Text
tags_arg g t = join (codes ";") (g.tags ++ t ∷ [])

abbrev pub disk_arg : (mp storage : Text) → Size → Bool → Text
disk_arg mp storage size backup =
    storage
    ++ codes ":"
    ++ to_pct_gib size
    ++ codes ",mp="
    ++ mp
    ++ codes ",backup="
    ++ flag_text backup

abbrev pub bind_arg : (mp path : Text) → Text
bind_arg mp path = path ++ codes ",mp=" ++ mp

-- The call for an operation, and the state of the index counter behind it.
unfoldable pub call : GuestConfig → List ℕ → ℕ → Op → Call × ℕ
call g used next (set_features s) = (set_options (codes "--features" ∷ s ∷ []), next)
call g used next (add_tag t) = (set_options (codes "--tags" ∷ tags_arg g t ∷ []), next)
call g used next (create_disk mp storage size backup) =
    let i = take_index used next in
    (set_options (mp_arg i ∷ disk_arg mp storage size backup ∷ []), i + 1)
call g used next (create_bind mp path) =
    let i = take_index used next in (set_options (mp_arg i ∷ bind_arg mp path ∷ []), i + 1)
call g used next (resize key mp from to) = (resize_disk key (to_pct_resize to), next)
call g used next (set_backup m backup) =
    (set_options ((codes "--" ++ m.key) ∷ print (record m { backup = backup }) ∷ []), next)

-- `pct` may fail a call, which ends the run with the calls so far made. `runs` says of the calls made
-- whether the last one succeeded; the result is whether all did, and the calls.
module _ (runs : List Call → Bool) where
  unfoldable pub execute_from : GuestConfig → List ℕ → ℕ → List Call → List Op → Bool × List Call
  execute_from g used next made [] = (true, made)
  execute_from g used next made (op ∷ ops) =
      let (c, next') = call g used next op in
      let made' = made ++ c ∷ [] in
      let rest = execute_from g used next' made' ops in if runs made' then rest else (false, made')

  unfoldable pub execute : GuestConfig → Plan → Bool × List Call
  unfolding execute_from call take_index skip
  execute g p = execute_from g (used_indexes g.mounts) (free_mp_index g) [] p.ops
