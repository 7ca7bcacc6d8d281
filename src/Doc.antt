-- ===== src/Doc.antt =====
-- src/doc.rs: the `compose` subtree of a guest's document.
pub mod Flags
pub mod Project
pub mod Parsed
pub mod Tests
use pve_compose.Base.{
  Bool, true, false, Option, none, some, Text, Result, ok, err, ◌>>=◌, ◌>>◌, guard, ok_or, map_err,
  is_some,
}
use pve_compose.Spec.Yaml.{Value, as_mapping}
use pve_compose.Spec.Bounds.{SpecError, split_owner}

pub record Stack : Type 0 where
  pub owner : Option Text

pub data Mode : Type 0 where
  auto : Mode
  manual : Mode

pub record Policy : Type 0 where
  pub pct : Mode
  pub docker : Mode
  pub pull : Mode
  pub up : Mode

abbrev pub default_policy : Policy
default_policy = record { pct = auto; docker = auto; pull = manual; up = manual }

pub record Doc : Type 0 where
  pub stack : Stack
  pub policy : Policy
  pub spec : Value

pub data DocError : Type 0 where
  not_a_document : DocError
  spec_not_a_map : DocError
  bad_stack_owner : SpecError → DocError

check_stack_owner : Option Text → Result DocError (Unit {0})
check_stack_owner none = ok tt
check_stack_owner (some o) = do _ ← map_err bad_stack_owner (split_owner o); ok tt

-- `from_str` is serde's reader of a `Doc`.
module _ (from_str : Text → Option Doc) where
  unfoldable pub parse : Text → Result DocError Doc
  unfolding check_stack_owner
  parse text = do
    doc ← ok_or (from_str text) not_a_document
    guard (is_some (as_mapping doc.spec)) spec_not_a_map
    check_stack_owner doc.stack.owner
    ok doc
