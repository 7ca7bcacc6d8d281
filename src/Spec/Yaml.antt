-- ===== src/Spec/Yaml.antt =====
-- `serde_yaml_ng::Value`, as far as the program takes it apart.
use pve_compose.Base.{ℕ, Bool, true, false, Option, none, some, Text, text_eq, if◌then◌else◌}

-- A number by what the program asks of it: `as_i64` for a non-negative one, and `to_string`.
pub record Number : Type 0 where
  pub as_i64 : Option ℕ
  pub to_string : Text

mutual
  pub data Value : Type 0 where
    null : Value
    bool : Bool → Value
    number : Number → Value
    string : Text → Value
    sequence : Items → Value
    mapping : Mapping → Value
    tagged : Text → Value → Value

  pub data Items : Type 0 where
    nil : Items
    cons : Value → Items → Items

  -- The entries of a mapping in their order. A key is a value of its own.
  pub data Mapping : Type 0 where
    end : Mapping
    entry : Value → Value → Mapping → Mapping

-- The accessors of the crate look through tags.
unfoldable pub untag : Value → Value
untag (tagged t v) = untag v
untag null = null
untag v = v

abbrev as_str_of : Value → Option Text
as_str_of (string s) = some s
as_str_of null = none
as_str_of v = none

unfoldable pub as_str : Value → Option Text
unfolding untag
as_str v = as_str_of (untag v)

abbrev as_mapping_of : Value → Option Mapping
as_mapping_of (mapping m) = some m
as_mapping_of null = none
as_mapping_of v = none

unfoldable pub as_mapping : Value → Option Mapping
unfolding untag
as_mapping v = as_mapping_of (untag v)

abbrev is_null_of : Value → Bool
is_null_of null = true
is_null_of (string s) = false
is_null_of v = false

unfoldable pub is_null : Value → Bool
unfolding untag
is_null v = is_null_of (untag v)

abbrev pub is_key : Text → Value → Bool
is_key k (string s) = text_eq s k
is_key k null = false
is_key k v = false

-- `map.get("k")`, for a key that is an untagged string.
unfoldable pub get_entry : Text → Mapping → Option Value
get_entry k end = none
get_entry k (entry j v m) = if is_key k j then some v else get_entry k m

abbrev get_of : Text → Option Mapping → Option Value
get_of k none = none
get_of k (some m) = get_entry k m

-- `v.get("k")`
unfoldable pub get : Text → Value → Option Value
unfolding get_entry as_mapping
get k v = get_of k (as_mapping v)

-- `map.insert("k".into(), v)`: in place where the key stands, else at the end.
unfoldable pub insert_entry : Text → Value → Mapping → Mapping
insert_entry k v end = entry (string k) v end
insert_entry k v (entry j w m) = if is_key k j then entry j v m else entry j w (insert_entry k v m)
