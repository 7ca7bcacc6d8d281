-- ===== src/Pct/Listing.antt =====
-- src/pct.rs: the node's containers and storages, read from PVE's JSON.
use pve_compose.Base.{
  ℕ, ◌%◌, ◌^◌, Bool, false, Option, none, some, List, [], ◌∷◌, Text, codes, is_text, leb, ◌==◌,
  if◌then◌else◌,
}
use pve_compose.Base.Decimal.{read, u32_bound}
use pve_compose.Base.Dict.{Dict, lookup, text_lt}
use pve_compose.Pct.Guest.{Json, string, other, tags_of}

pub record Listed : Type 0 where
  pub vmid : ℕ
  pub name : Text
  pub running : Bool
  pub tags : List Text
  pub is_template : Bool

pub record Storage : Type 0 where
  pub id : Text
  pub kind : Text
  pub avail : ℕ
  pub shared : Bool

abbrev or_zero : Option ℕ → ℕ
or_zero none = 0
or_zero (some n) = n

-- `as_str` and `as_u64` of what a key has.
abbrev as_str : Option Json → Option Text
as_str (some (string s)) = some s
as_str _ = none

abbrev as_u64 : Option Json → Option ℕ
as_u64 (some (other n t)) = n
as_u64 _ = none

abbrev or_nothing : Option Text → Text
or_nothing none = []
or_nothing (some s) = s

-- The `match` on `vmid`, with `as u32`.
unfoldable pub vmid_of : Option Json → ℕ
vmid_of none = 0
vmid_of (some (string s)) = or_zero (read u32_bound s)
vmid_of (some (other n t)) = or_zero n % 2 ^ 32

abbrev is_number : ℕ → Option ℕ → Bool
is_number n none = false
is_number n (some m) = m == n

unfoldable pub listed_of : Dict Json → Listed
unfolding vmid_of tags_of lookup
listed_of r = record {
  vmid = vmid_of (lookup (codes "vmid") r);
  name = or_nothing (as_str (lookup (codes "name") r));
  running = is_text (as_str (lookup (codes "status") r)) (codes "running");
  tags = tags_of (or_nothing (as_str (lookup (codes "tags") r)));
  is_template = is_number 1 (as_u64 (lookup (codes "template") r));
}

unfoldable pub listed_rows : List (Dict Json) → List Listed
unfolding listed_of
listed_rows [] = []
listed_rows (r ∷ rs) =
    let l = listed_of r in let rest = listed_rows rs in if l.vmid == 0 then rest else l ∷ rest

-- `sort_by_key(|l| l.vmid)`, which is stable.
unfoldable pub insert_listed : Listed → List Listed → List Listed
insert_listed l [] = l ∷ []
insert_listed l (m ∷ ms) =
    let later = m ∷ insert_listed l ms in if leb l.vmid m.vmid then l ∷ m ∷ ms else later

unfoldable pub sort_listed : List Listed → List Listed
unfolding insert_listed
sort_listed [] = []
sort_listed (l ∷ ls) = insert_listed l (sort_listed ls)

-- `list`, for the array that PVE gives.
unfoldable pub list : List (Dict Json) → List Listed
unfolding sort_listed listed_rows
list rs = sort_listed (listed_rows rs)

abbrev add_storage : Dict Json → Option Text → List Storage → List Storage
add_storage r none rest = rest
add_storage r (some id) rest =
    record {
      id = id;
      kind = or_nothing (as_str (lookup (codes "type") r));
      avail = or_zero (as_u64 (lookup (codes "avail") r));
      shared = is_number 1 (as_u64 (lookup (codes "shared") r));
    }
    ∷ rest

unfoldable pub storage_rows : List (Dict Json) → List Storage
unfolding lookup
storage_rows [] = []
storage_rows (r ∷ rs) =
    let rest = storage_rows rs in
    if is_number 0 (as_u64 (lookup (codes "active") r))
    then rest
    else add_storage r (as_str (lookup (codes "storage") r)) rest

unfoldable pub insert_storage : Storage → List Storage → List Storage
unfolding text_lt
insert_storage s [] = s ∷ []
insert_storage s (t ∷ ts) =
    let later = t ∷ insert_storage s ts in if text_lt t.id s.id then later else s ∷ t ∷ ts

unfoldable pub sort_storages : List Storage → List Storage
unfolding insert_storage
sort_storages [] = []
sort_storages (s ∷ ss) = insert_storage s (sort_storages ss)

-- `storages`, for the array that PVE gives.
unfoldable pub storages : List (Dict Json) → List Storage
unfolding sort_storages storage_rows
storages rs = sort_storages (storage_rows rs)

-- `owner_node`, for the entry that the cluster's map has for the guest.
unfoldable pub owner_node : (entry : Option (Dict Json)) → Option (Text × Text)
unfolding lookup
owner_node none = none
owner_node (some e) =
    some
      (or_nothing (as_str (lookup (codes "node") e)), or_nothing (as_str (lookup (codes "type") e)))
