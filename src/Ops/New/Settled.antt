-- ===== src/Ops/New/Settled.antt =====
-- Where the storages of src/ops/new.rs come from.
use pve_compose.Base.{
  ℕ, ◌≡◌, Bool, true, Option, none, some, List, Text, length, get_elem?, Result, ok, err,
}
use pve_compose.Pct.Listing.{Storage}
use pve_compose.Prompt.First.{IsFirst}
use pve_compose.Ops.New.{Source, flag, config, asked, NewError, out_of_bounds}

-- A storage is the flag's, or without a flag the config's, or without either one the storage of the
-- node whose number, from 1, is on the first usable line that the user typed at the terminal; an error
-- comes only without a flag and a configured storage, and never from an index behind the end.
abbrev pub IsSettled :
    (given configured : Option Text)
    → (candidates : Option (List Storage)) → (interactive : Bool) → (lines : List Text)
    → Result NewError (Text × Source)
    → Type 0
IsSettled given configured candidates interactive lines (ok (s, flag)) = given ≡ some s
IsSettled given configured candidates interactive lines (ok (s, config)) =
    (given ≡ none) × (configured ≡ some s)
IsSettled given configured candidates interactive lines (ok (s, asked)) =
    (given ≡ none)
    × (configured ≡ none)
    × (interactive ≡ true)
    × (cs : List Storage) × (candidates ≡ some cs)
    × (i : ℕ) × IsFirst (length cs) lines (ok i)
    × (st : Storage) × (get_elem? cs i ≡ some st)
    × (st.id ≡ s)
IsSettled given configured candidates interactive lines (err out_of_bounds) = ⊥
IsSettled given configured candidates interactive lines (err e) =
    (given ≡ none) × (configured ≡ none)
