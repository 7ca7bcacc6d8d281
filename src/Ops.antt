-- ===== src/Ops.antt =====
-- src/ops/mod.rs: what every verb works on.
pub mod Selector
pub mod ConfigCmd
pub mod Template
pub mod New
pub mod Status
use pve_compose.Base.{
  ℕ, Bool, true, Option, none, some, List, ◌++◌, any, Text, codes, text_eq, Result, ok, ◌>>=◌,
  ok_or, map_err,
}
use pve_compose.Base.Decimal.{show}
use pve_compose.Config.{Config, Limits, limits_for}
use pve_compose.Doc.{Doc}
use pve_compose.Doc.Project.{project_name_from}
use pve_compose.Spec.Yaml.{Value}
use pve_compose.Spec.Bounds.{SpecError}
use pve_compose.Spec.Volumes.{Volume, XPve, volumes}
use pve_compose.Pct.Guest.{GuestConfig}

pub record Ctx : Type 0 where
  pub node : Text
  pub config : Config
  pub tag : Option Text

abbrev limits : Ctx → Limits
limits ctx = limits_for ctx.config ctx.node

abbrev has_selected : List Text → Option Text → Bool
has_selected tags none = true
has_selected tags (some t) = any (λ x. text_eq x t) tags

abbrev pub selected : Ctx → List Text → Bool
selected ctx tags = has_selected tags ctx.tag

-- `doc::Read`
pub record Read : Type 0 where
  pub vmid : ℕ
  pub text : Text
  pub digest : Text
  pub doc : Doc

pub record Guest : Type 0 where
  pub config : GuestConfig
  pub read : Read
  pub volumes : List Volume

abbrev project_of : ℕ → Option Text → Text
project_of vmid none = codes "ct" ++ show vmid
project_of vmid (some h) = project_name_from h

abbrev pub project : Guest → Text
project g = project_of g.config.vmid g.config.hostname

abbrev owner_of : Text → Option Text → Text
owner_of default none = default
owner_of default (some o) = o

abbrev pub owner : Ctx → Guest → Text
owner ctx g = owner_of ctx.config.defaults.owner g.read.doc.stack.owner

pub data LoadError : Type 0 where
  no_config : LoadError
  bad_spec : SpecError → LoadError

-- `config` is what `pct::config` gives for the guest.
pub load_with :
    (from_value : Value → Option XPve)
    → Ctx
    → (config : Option GuestConfig) → Read
    → Result LoadError Guest
load_with from_value ctx config read = do
  c ← ok_or config no_config
  vs ← map_err bad_spec (volumes from_value read.doc.spec (limits ctx))
  ok (record { config = c; read = read; volumes = vs })

pub refresh_config : (config : Option GuestConfig) → Guest → Result LoadError Guest
refresh_config config g = do c ← ok_or config no_config; ok (record g { config = c })
