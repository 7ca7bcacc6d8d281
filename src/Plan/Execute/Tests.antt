-- ===== src/Plan/Execute/Tests.antt =====
-- A run of a plan, and the theorems there.
use pve_compose.Base.{◌≡◌, refl, Bool, true, false, List, [], ◌∷◌, codes, ltb, length, strip_prefix}
use pve_compose.Base.Decimal.{show, read}
use pve_compose.Size.{display, to_pct_resize}
use pve_compose.Pct.Mount.{index}
use pve_compose.Pct.Guest.{used_indexes, free_mp_index}
use pve_compose.Plan.Build.Tests.{guest, planned}
use pve_compose.Plan.Execute.{Call, set_options, resize_disk, take_index, execute}
use pve_compose.Plan.Execute.Indexes.{
  IsNextFree, AllocatesFresh, take_index-IsNextFree, execute-AllocatesFresh,
}

abbrev pub all_run : List Call → Bool
all_run _ = true

pub calls : execute all_run guest planned ≡ (
  true,
  set_options (codes "--features" ∷ codes "keyctl=1,nesting=1" ∷ [])
      ∷ resize_disk (codes "mp0") (codes "20G")
      ∷ set_options (codes "--mp1" ∷ codes "/srv,mp=/opt/stack/volumes/media" ∷ [])
      ∷ [],
)
unfolding execute to_pct_resize show display used_indexes index strip_prefix read free_mp_index
calls = refl

-- PVE fails the second call.
failing : (execute (λ cs. ltb (length cs) 2) guest planned).0 ≡ false
unfolding execute to_pct_resize show display used_indexes index strip_prefix read free_mp_index
failing = refl

execute-AllocatesFresh_example :
    AllocatesFresh
      (used_indexes guest.mounts)
      (free_mp_index guest)
      planned.ops
      (execute all_run guest planned).1
execute-AllocatesFresh_example = execute-AllocatesFresh all_run guest planned

take_index-IsNextFree_example : IsNextFree (0 ∷ 2 ∷ 3 ∷ []) 2 (take_index (0 ∷ 2 ∷ 3 ∷ []) 2)
take_index-IsNextFree_example = take_index-IsNextFree (0 ∷ 2 ∷ 3 ∷ []) 2
