-- ===== src/Ops/Selector.antt =====
-- src/ops/mod.rs: `selector_tag` and `require_running`; src/doc.rs: `read`.
use pve_compose.Base.{
  ℕ, Bool, true, false, Option, none, some, List, [], ◌∷◌, Text, codes, Result, ok, err, ◌>>=◌,
  map_err, ◌==◌, if◌then◌else◌,
}
use pve_compose.Spec.Yaml.{Value, as_str, get}
use pve_compose.Doc.{Doc, DocError, parse}
use pve_compose.Doc.Flags.{flag_of}
use pve_compose.Ops.{Read}

pub data Status : Type 0 where
  running : Status
  stopped : Status
  other : Status

pub data GuestError : Type 0 where
  no_status : GuestError
  is_stopped : (vmid : ℕ) → GuestError
  unexpected_state : (vmid : ℕ) → GuestError

-- The status is what `pct::status` gives.
unfoldable pub require_running : ℕ → Option Status → Result GuestError (Unit {0})
require_running vmid none = err no_status
require_running vmid (some running) = ok tt
require_running vmid (some stopped) = err (is_stopped vmid)
require_running vmid (some other) = err (unexpected_state vmid)

-- A file of the node: there is none, it cannot be read, or it has a text.
pub data File : Type 0 where
  missing : File
  unreadable : File
  text : Text → File

pub data SelectorError : Type 0 where
  no_read : SelectorError
  not_yaml : SelectorError
  no_selector : SelectorError
  no_prefix_file : SelectorError

get_in : Text → Option Value → Option Value
get_in k none = none
get_in k (some v) = get k v

text_at : Option Value → Option Text
text_at none = none
text_at (some v) = as_str v

is_on : Option Value → Bool
is_on none = false
is_on (some v) = is_true (flag_of v)
  where
    is_true : Option Bool → Bool
    is_true (some true) = true
    is_true _ = false

-- `{ tag: t }` or `{ all: true }`
selector_of : Option Value → Result SelectorError (Option Text)
selector_of sel = elim (text_at (get_in (codes "tag") sel)) [
  | some t ↦ ok (some t)
  | none ↦ if is_on (get_in (codes "all") sel) then ok none else err no_selector
]

-- The first of the files that is there decides. `from_str` is serde's reader of YAML.
pub selector_tag : (from_str : Text → Option Value) → List File → Result SelectorError (Option Text)
selector_tag from_str [] = err no_prefix_file
selector_tag from_str (missing ∷ files) = selector_tag from_str files
selector_tag from_str (unreadable ∷ files) = err no_read
selector_tag from_str (text s ∷ files) = elim (from_str s) [
  | none ↦ err not_yaml
  | some v ↦ selector_of (get (codes "selector") v)
]

pub data ReadError : Type 0 where
  no_output : ReadError
  get_failed : (status : ℕ) → ReadError
  bad_document : DocError → ReadError

-- `output` is the status and the text of `pve-meta get`, and `digest` the digest of a text.
pub read :
    (from_str : Text → Option Doc) (digest : Text → Text)
    → ℕ
    → (output : Option (ℕ × Text)) → Result ReadError (Option Read)
read from_str digest vmid none = err no_output
read from_str digest vmid (some (status, out)) =
    if status == 0
    then (map_err bad_document (parse from_str out) >>= λ doc.
        ok (some (record { vmid = vmid; text = out; digest = digest out; doc = doc })))
    else if status == 2
    then ok none
    else err (get_failed status)
