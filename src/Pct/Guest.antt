-- ===== src/Pct/Guest.antt =====
-- src/pct.rs: a container's config, read from PVE's JSON.
pub mod Keys
pub mod Parsed
pub mod Tests
use pve_compose.Base.{
  ℕ, zero, suc, ◌+◌, Bool, true, false, Option, none, some, List, [], ◌∷◌, ◌++◌, Text, codes,
  text_eq, is_text, is_empty, strip_prefix, split, split_once, trim, all, any, find, is_ascii_digit,
  leb, ◌==◌, if◌then◌else◌, Result, ok, ◌>>=◌,
}
use pve_compose.Base.Dict.{Dict, insert}
use pve_compose.Size.{Float}
use pve_compose.Pct.Mount.{Mount, MountError, index, parse}

pub record GuestConfig : Type 0 where
  pub vmid : ℕ
  pub hostname : Option Text
  pub unprivileged : Bool
  pub features : Dict Text
  pub tags : List Text
  pub rootfs : Option Mount
  pub mounts : List Mount
  pub is_template : Bool

unfoldable pub mount_at : GuestConfig → Text → Option Mount
mount_at g path = find (λ m. is_text m.mp path) g.mounts

abbrev indexed : Mount → Option ℕ → List ℕ → List ℕ
indexed m none rest = rest
indexed m (some i) rest = i ∷ rest

-- `mounts.iter().filter_map(Mount::index)`
unfoldable pub used_indexes : List Mount → List ℕ
used_indexes [] = []
used_indexes (m ∷ ms) = indexed m (index m) (used_indexes ms)

abbrev pub contains_index : List ℕ → ℕ → Bool
contains_index used i = any (λ j. j == i) used

-- `(from..from + count).find(…).unwrap_or(from + count)`
first_free : List ℕ → ℕ → ℕ → ℕ
first_free used from zero = from
first_free used from (suc count) =
    let later = first_free used (from + 1) count in if contains_index used from then later else from

unfoldable pub free_mp_index : GuestConfig → ℕ
unfolding first_free used_indexes
free_mp_index g = first_free (used_indexes g.mounts) 0 256

unfoldable pub has_tag : GuestConfig → Text → Bool
has_tag g tag = any (λ t. text_eq t tag) g.tags

-- A JSON value by what the program asks of it: a string, or another value by its `as_u64` and its
-- text.
pub data Json : Type 0 where
  string : Text → Json
  other : (as_u64 : Option ℕ) (to_string : Text) → Json

abbrev text_of : Json → Text
text_of (string s) = s
text_of (other n t) = t

abbrev is_one_of : Option ℕ → Bool
is_one_of none = false
is_one_of (some n) = n == 1

-- `val.as_u64() == Some(1) || val.as_str() == Some("1")`
is_one : Json → Bool
is_one (string s) = text_eq s (codes "1")
is_one (other n t) = is_one_of n

-- `s.split(';').map(str::trim).filter(|t| !t.is_empty())`
unfoldable pub trimmed_parts : List Text → List Text
trimmed_parts [] = []
trimmed_parts (p ∷ ps) =
    let rest = trimmed_parts ps in if is_empty (trim p) then rest else trim p ∷ rest

unfoldable pub tags_of : Text → List Text
unfolding trimmed_parts
tags_of s = trimmed_parts (split b';' s)

-- A feature without a value is on.
abbrev pub feature_of : Text → Option (Text × Text) → Text × Text
feature_of item none = (item, codes "1")
feature_of item (some kv) = kv

unfoldable pub add_features : List Text → Dict Text → Dict Text
add_features [] features = features
add_features (item ∷ items) features =
    let (k, v) = feature_of item (split_once b'=' item) in add_features items (insert k v features)

abbrev digits_behind_mp : Option Text → Bool
digits_behind_mp none = false
digits_behind_mp (some n) = all is_ascii_digit n

module _ (fl : Float) where
  -- The `match` on a key of the object.
  set_key : GuestConfig → Text → Json → Result MountError GuestConfig
  unfolding is_one tags_of add_features
  set_key c k val =
      if text_eq k (codes "hostname")
      then ok (record c { hostname = some (text_of val) })
      else if text_eq k (codes "unprivileged")
      then ok (record c { unprivileged = is_one val })
      else if text_eq k (codes "template")
      then ok (record c { is_template = is_one val })
      else if text_eq k (codes "tags")
      then ok (record c { tags = tags_of (text_of val) })
      else if text_eq k (codes "features")
      then ok (record c {
        features = add_features (trimmed_parts (split b',' (text_of val))) c.features;
      })
      else if text_eq k (codes "rootfs")
      then parse fl (codes "rootfs") (text_of val) >>= (λ m. ok (record c { rootfs = some m }))
      else if digits_behind_mp (strip_prefix k (codes "mp"))
      then parse fl k (text_of val) >>= (λ m. ok (record c { mounts = c.mounts ++ m ∷ [] }))
      else ok c

  set_keys : GuestConfig → List (Text × Json) → Result MountError GuestConfig
  set_keys c [] = ok c
  set_keys c ((k, val) ∷ obj) = do c' ← set_key c k val; set_keys c' obj

-- `Option<u32>` in its order: `None` is the least.
pub index_le : Option ℕ → Option ℕ → Bool
index_le none j = true
index_le (some i) none = false
index_le (some i) (some j) = leb i j

-- `sort_by_key(|m| m.index())`, which is stable.
insert_sorted : Mount → List Mount → List Mount
insert_sorted m [] = m ∷ []
insert_sorted m (n ∷ ns) =
    let later = n ∷ insert_sorted m ns in if index_le (index m) (index n) then m ∷ n ∷ ns else later

sort_mounts : List Mount → List Mount
unfolding insert_sorted index_le
sort_mounts [] = []
sort_mounts (m ∷ ms) = insert_sorted m (sort_mounts ms)

abbrev empty_config : ℕ → GuestConfig
empty_config vmid = record {
  vmid = vmid;
  hostname = none;
  unprivileged = false;
  features = [];
  tags = [];
  rootfs = none;
  mounts = [];
  is_template = false;
}

module _ (fl : Float) where
  -- The entries of the object; `none` for a value that is no object, which is the other error.
  unfoldable pub parse_config : ℕ → List (Text × Json) → Result MountError GuestConfig
  unfolding set_keys set_key sort_mounts
  parse_config vmid obj =
      set_keys fl (empty_config vmid) obj >>= λ c. ok (record c { mounts = sort_mounts c.mounts })
