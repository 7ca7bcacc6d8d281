-- ===== src/Ops/New.antt =====
-- src/ops/new.rs: what `new` settles before it touches anything, and what it creates.
pub mod Settled
pub mod Tests
use pve_compose.Base.{
  ℕ, Bool, true, false, Option, none, some, List, [], ◌∷◌, ◌++◌, Text, codes, is_empty, join,
  contains, split, length, get_elem?, if◌then◌else◌, Result, ok, err, ◌>>=◌, map_err, ok_or,
}
use pve_compose.Base.Decimal.{show}
use pve_compose.Size.{Size}
use pve_compose.Size.Gib.{to_pct_gib}
use pve_compose.Config.{Config, to_list, storage_for, set_storage_for}
use pve_compose.Pct.Listing.{Storage}
use pve_compose.Prompt.{PromptError, choose, yes_no}
use pve_compose.Ops.{Ctx}

pub record WrapperSpec : Type 0 where
  pub vmid : ℕ
  pub hostname : Text
  pub template : Text
  pub rootfs_storage : Text
  pub rootfs_size : Size
  pub unprivileged : Bool
  pub cores : ℕ
  pub memory : ℕ
  pub net0 : Text
  pub features : Text
  pub tags : List Text
  pub onboot : Bool

abbrev one_or_zero : Bool → Text
one_or_zero b = if b then codes "1" else codes "0"

-- The arguments of `create_wrapper`.
unfoldable pub create_args : WrapperSpec → List Text
create_args w =
    let tags = join (codes ";") w.tags in
    (codes "create"
      ∷ show w.vmid
      ∷ w.template
      ∷ codes "--hostname"
      ∷ w.hostname
      ∷ codes "--rootfs"
      ∷ (w.rootfs_storage ++ codes ":" ++ to_pct_gib w.rootfs_size)
      ∷ codes "--unprivileged"
      ∷ one_or_zero w.unprivileged
      ∷ codes "--cores"
      ∷ show w.cores
      ∷ codes "--memory"
      ∷ show w.memory
      ∷ codes "--swap"
      ∷ codes "0"
      ∷ codes "--net0"
      ∷ w.net0
      ∷ codes "--features"
      ∷ w.features
      ∷ codes "--onboot"
      ∷ one_or_zero w.onboot
      ∷ [])
    ++ (if is_empty tags then [] else codes "--tags" ∷ tags ∷ [])

pub record NewArgs : Type 0 where
  pub vmid : ℕ
  pub name : Text
  pub template : Option Text
  pub storage : Option Text
  pub rootfs_size : Option Size
  pub bridge : Option Text
  pub ip : Option Text
  pub gateway : Option Text
  pub cores : Option ℕ
  pub memory : Option ℕ
  pub no_up : Bool

abbrev pub initial_document : Text
initial_document =
    codes "policy:\n  pct: auto\n  docker: auto\n  pull: manual\nspec:\n  services: {}\n"

pub data Source : Type 0 where
  flag : Source
  config : Source
  asked : Source

pub data NewError : Type 0 where
  in_use : (vmid : ℕ) → NewError
  storages_failed : NewError
  no_storage : (node content : Text) → NewError
  no_terminal : (what config_key : Text) → NewError
  unanswered : PromptError → NewError
  out_of_bounds : NewError

-- `candidates[i].id.clone()`, which panics behind the end.
abbrev chosen : Option Storage → Result NewError (Text × Source)
chosen none = err out_of_bounds
chosen (some s) = ok (s.id, asked)

abbrev ask_storage :
    (what config_key : Text)
    → (interactive : Bool) → (lines : List Text) → List Storage
    → Result NewError (Text × Source)
ask_storage what config_key false lines candidates = err (no_terminal what config_key)
ask_storage what config_key true lines candidates =
    map_err unanswered (choose (length candidates) lines) >>= λ i. chosen (get_elem? candidates i)

-- `settle_storage`, for the storages that the node has and the lines that the user types.
unfoldable pub settle_storage :
    Ctx
    → (flag configured : Option Text) → (content what config_key : Text)
    → (candidates : Option (List Storage)) → (interactive : Bool) → (lines : List Text)
    → Result NewError (Text × Source)
settle_storage ctx (some s) configured content what config_key candidates interactive lines =
    ok (s, flag)
settle_storage ctx none (some s) content what config_key candidates interactive lines =
    ok (s, config)
settle_storage ctx none none content what config_key candidates interactive lines =
    ok_or candidates storages_failed >>= λ cs.
    if is_empty cs
    then err (no_storage ctx.node content)
    else ask_storage what config_key interactive lines cs

-- The answers to the two storage questions and to the two on keeping them.
pub record Answers : Type 0 where
  pub interactive : Bool
  pub templates : Option (List Storage)
  pub disks : Option (List Storage)
  pub template_lines : List Text
  pub storage_lines : List Text
  pub store_template_lines : List Text
  pub store_storage_lines : List Text

pub record Decided : Type 0 where
  pub template_storage : Text
  pub storage : Text
  pub store_template : Bool
  pub store_storage : Bool

-- `matches!(source, Source::Asked) && yes_no(…)?`
unfoldable pub store : Source → (lines : List Text) → Result NewError Bool
store asked lines = map_err unanswered (yes_no true lines)
store _ lines = ok false

abbrev first_part : List Text → Text
first_part [] = []
first_part (p ∷ ps) = p

-- A template given as a volid names its storage.
abbrev volid_of : Option Text → Option Text
volid_of none = none
volid_of (some t) = if contains t (codes ":vztmpl/") then some t else none

abbrev settle_template : Ctx → Answers → Option Text → Result NewError (Text × Source)
settle_template ctx a (some v) = ok (first_part (split b':' v), flag)
settle_template ctx a none =
    settle_storage ctx none ctx.config.template.storage (codes "vztmpl") (codes "templates")
      (codes "template-storage") a.templates a.interactive a.template_lines

abbrev unused : ℕ → (owner_node : Option Text) → Result NewError (Unit {0})
unused vmid none = ok tt
unused vmid (some node) = err (in_use vmid)

-- Everything to decide: the part of `new` before it touches anything.
unfoldable pub decide :
    Ctx → NewArgs → (owner_node : Option Text) → Answers → Result NewError Decided
unfolding settle_storage store storage_for
decide ctx args owner_node a = do
  _ ← unused args.vmid owner_node
  (template_storage, template_source) ← settle_template ctx a (volid_of args.template)
  (storage, storage_source) ←
      settle_storage ctx args.storage (storage_for ctx.config ctx.node) (codes "rootdir")
        (codes "container disks") (codes "storage") a.disks a.interactive a.storage_lines
  store_template ← store template_source a.store_template_lines
  store_storage ← store storage_source a.store_storage_lines
  ok (record {
    template_storage = template_storage;
    storage = storage;
    store_template = store_template;
    store_storage = store_storage;
  })

-- The change that `Config::update` makes to the config as the file has it now.
abbrev with_template : Bool → Text → Config → Config
with_template b s c =
    if b then record c { template = record c.template { storage = some s } } else c

unfoldable pub stored : (node : Text) → Decided → Config → Config
unfolding set_storage_for
stored node d c =
    let c' = with_template d.store_template d.template_storage c in
    if d.store_storage then set_storage_for c' node (some d.storage) else c'

abbrev or_else {ℓ} : {A : Type ℓ} → Option A → A → A
or_else none a = a
or_else (some b) a = b

abbrev with_gateway : Text → Option Text → Text
with_gateway net0 none = net0
with_gateway net0 (some gw) = net0 ++ codes ",gw=" ++ gw

-- The wrapper that is created, for the config `cfg` and the resolved template.
unfoldable pub wrapper_spec :
    Ctx → NewArgs → Decided → (cfg : Config) → (template : Text) → WrapperSpec
wrapper_spec ctx a d cfg template = record {
  vmid = a.vmid;
  hostname = a.name;
  template = template;
  rootfs_storage = d.storage;
  rootfs_size = or_else a.rootfs_size cfg.defaults.rootfs_size;
  unprivileged = true;
  cores = or_else a.cores cfg.defaults.cores;
  memory = or_else a.memory cfg.defaults.memory;
  net0 =
      with_gateway
        (codes "name=eth0,bridge="
          ++ or_else a.bridge cfg.defaults.bridge
          ++ codes ",ip="
          ++ or_else a.ip (codes "dhcp"))
        a.gateway;
  features = codes "nesting=1,keyctl=1";
  tags = to_list ctx.tag;
  onboot = true;
}
