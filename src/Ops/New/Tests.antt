-- ===== src/Ops/New/Tests.antt =====
-- A wrapper created with the answers of a user.
use pve_compose.Base.{
  ◌*◌, ◌≡◌, refl, true, false, none, some, List, [], ◌∷◌, Text, codes, ok, Result,
}
use pve_compose.Config.{default_config}
use pve_compose.Pct.Listing.{Storage}
use pve_compose.Ops.{Ctx}
use pve_compose.Ops.New.{NewArgs, Answers, Decided, NewError, decide}

abbrev ctx : Ctx
ctx = record { node = codes "n1"; config = default_config; tag = some (codes "compose") }

abbrev two : List Storage
two =
    record { id = codes "local"; kind = codes "dir"; avail = 5; shared = false }
    ∷ record { id = codes "tank"; kind = codes "zfspool"; avail = 9; shared = false }
    ∷ []

abbrev args : NewArgs
args = record {
  vmid = 105;
  name = codes "web";
  template = none;
  storage = some (codes "tank");
  rootfs_size = none;
  bridge = none;
  ip = none;
  gateway = none;
  cores = none;
  memory = none;
  no_up = false;
}

abbrev answers : Answers
answers = record {
  interactive = true;
  templates = some two;
  disks = none;
  template_lines = codes "1" ∷ [];
  storage_lines = [];
  store_template_lines = codes "n" ∷ [];
  store_storage_lines = [];
}

abbrev decided : Decided
decided = record {
  template_storage = codes "local";
  storage = codes "tank";
  store_template = false;
  store_storage = false;
}

decides : Path (Result NewError Decided) (decide ctx args none answers) (ok decided)
unfolding decide pve_compose.Prompt.choose pve_compose.Base.Decimal.read pve_compose.Base.trim
    pve_compose.Prompt.yes_no pve_compose.Base.text_dec
decides = refl
