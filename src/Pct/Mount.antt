-- ===== src/Pct/Mount.antt =====
-- src/pct.rs: one mount line of a container's config, read and printed.
pub mod Written
pub mod Keyed
pub mod RoundTrip
pub mod Tests
use Prim.Native.String.{String}
use pve_compose.Base.{
  ℕ, Bool, false, Option, none, some, List, [], ◌∷◌, ◌++◌, Text, codes, text_eq, is_empty,
  starts_with, strip_prefix, split, split_once, trim, if◌then◌else◌, Result, ok, err, ◌>>=◌,
  map_err, ok_or,
}
use pve_compose.Base.Decimal.{read, u32_bound}
use pve_compose.Base.Dict.{Dict, insert}
use pve_compose.Size.{Size, SizeError, Float, display, from_str}

pub record Mount : Type 0 where
  pub key : Text
  pub volume : Text
  pub mp : Option Text
  pub size : Option Size
  pub backup : Bool
  pub other : Dict Text

pub data MountError : Type 0 where
  bad_option : (option key : Text) → MountError
  bad_mount_size : (key : Text) → SizeError → MountError
  no_volume : (key : Text) → MountError

unfoldable pub is_bind : Mount → Bool
is_bind m = starts_with m.volume (codes "/")

abbrev first_part : List Text → Text
first_part [] = []
first_part (p ∷ ps) = p

-- `None` for a bind, and what stands before the first colon of a volid.
unfoldable pub storage : Mount → Option Text
unfolding is_bind
storage m = if is_bind m then none else some (first_part (split b':' m.volume))

abbrev read_index : Option Text → Option ℕ
read_index none = none
read_index (some n) = read u32_bound n

-- The number of an `mpN` key.
unfoldable pub index : Mount → Option ℕ
index m = read_index (strip_prefix m.key (codes "mp"))

abbrev or_whole : Text → Option Text → Text
or_whole first none = first
or_whole first (some v) = v

-- The volume may be spelled `volume=…` or bare.
first_volume : Text → Text
first_volume first = or_whole first (strip_prefix first (codes "volume="))

module _ (fl : Float) where
  -- The `match` on an option's key.
  set_option : Text → Mount → Text → Text → Result MountError Mount
  set_option key m k v =
      if text_eq k (codes "mp")
      then ok (record m { mp = some v })
      else if text_eq k (codes "size")
      then map_err (bad_mount_size key) (from_str fl v) >>= (λ s. ok (record m { size = some s }))
      else if text_eq k (codes "backup")
      then ok (record m { backup = text_eq v (codes "1") })
      else if text_eq k (codes "volume")
      then ok (record m { volume = v })
      else ok (record m { other = insert k v m.other })

  -- The loop over the options behind the volume.
  set_options : Text → Mount → List Text → Result MountError Mount
  set_options key m [] = ok m
  set_options key m (p ∷ ps) = do
    (k, v) ← ok_or (split_once b'=' p) (bad_option p key)
    m' ← set_option key m k v
    set_options key m' ps

  abbrev fresh : Text → Text → Mount
  fresh key volume = record {
    key = key;
    volume = volume;
    mp = none;
    size = none;
    backup = false;
    other = [];
  }

  abbrev parse_parts : Text → List Text → Result MountError Mount
  parse_parts key [] = err (no_volume key)
  parse_parts key (first ∷ options) = do
    m ← set_options key (fresh key (first_volume (trim first))) options
    if is_empty m.volume then err (no_volume key) else ok m

  unfoldable pub parse : Text → Text → Result MountError Mount
  unfolding set_options set_option first_volume
  parse key line = parse_parts key (split b',' line)

abbrev option_text : String → Option Text → List Text
option_text k none = []
option_text k (some v) = (codes k ++ v) ∷ []

abbrev size_text : Option Size → Option Text
size_text none = none
size_text (some s) = some (display s)

pub others_text : Dict Text → List Text
others_text [] = []
others_text ((k, v) ∷ other) = (k ++ codes "=" ++ v) ∷ others_text other

-- What `Display` writes behind a comma each, in its order.
options_text : Mount → List Text
unfolding others_text
options_text m =
    option_text "mp=" m.mp
    ++ option_text "size=" (size_text m.size)
    ++ (if m.backup then codes "backup=1" ∷ [] else [])
    ++ others_text m.other

pub with_commas : List Text → Text
with_commas [] = []
with_commas (p ∷ ps) = codes "," ++ p ++ with_commas ps

-- `Display`
unfoldable pub print : Mount → Text
unfolding with_commas options_text
print m = m.volume ++ with_commas (options_text m)
