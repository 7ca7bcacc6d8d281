-- ===== src/Daemon/Tests.antt =====
-- Passes over two guests, and the theorem there.
use native.Mathlib.Omega.{arith}
use pve_compose.Base.{
  All, Bool, inl, ℕ, ◌≡◌, refl, true, false, Option, none, some, List, [], ◌∷◌, Text, codes, ◌==◌,
  if◌then◌else◌, text_dec,
}
use pve_compose.Config.{Config, default_config}
use pve_compose.Ops.{Ctx}
use pve_compose.Pct.Listing.{Listed}
use pve_compose.Daemon.{remembered, pass}
use pve_compose.Daemon.Poll.{State, reload, pass_of, poll}
use pve_compose.Daemon.Poll.Once.{Round, WorkedOn, AreQuiet, IsLeft, poll-IsLeft}
use pve_compose.Daemon.Poll.Full.{IsCovered, poll-IsCovered}

abbrev ctx : Ctx
ctx = record { node = codes "n1"; config = default_config; tag = some (codes "compose") }

abbrev listed : List Listed
listed =
    record {
      vmid = 101;
      name = codes "db";
      running = true;
      tags = codes "compose" ∷ [];
      is_template = false;
    }
    ∷ record {
      vmid = 102;
      name = codes "web";
      running = false;
      tags = codes "compose" ∷ [];
      is_template = false;
    }
    ∷ []

abbrev digests : ℕ → Option Text
digests vmid = if vmid == 101 then some (codes "d1") else none

first_pass : pass ctx digests [] listed ≡ ((101, codes "d1") ∷ [], 101 ∷ [])
unfolding pass remembered text_dec
first_pass = refl

abbrev state : State
state = record { ctx = ctx; last_token = codes "t"; last_full = 0; memo = (101, codes "d1") ∷ [] }

poll-IsCovered_example :
    All
      (IsCovered
        (reload (λ a b. true) none state).ctx
        digests
        (poll (λ a b. true) digests 600 700 (some (codes "t")) none (some listed) state).1)
      listed
poll-IsCovered_example =
    poll-IsCovered (λ a b. true) digests 600 700 (codes "t") none listed state (omega arith)

abbrev round : Round
round = record {
  digests = digests;
  now = 10;
  token = some (codes "u");
  loaded = some default_config;
  listed = some listed;
}

abbrev fresh : State
fresh = record { ctx = ctx; last_token = codes "t"; last_full = 0; memo = [] }

abbrev always : Config → Config → Bool
always a b = true

worked :
    WorkedOn 101
      (poll always digests 600 10 (some (codes "u")) (some default_config) (some listed) fresh).1
unfolding poll pass remembered text_dec reload pass_of
worked = inl refl

quiet :
    AreQuiet always 600 101
      (codes "d1")
      (poll always digests 600 10 (some (codes "u")) (some default_config) (some listed) fresh).0
      (record round { token = some (codes "w") } ∷ [])
unfolding poll pass remembered text_dec reload pass_of
quiet = ((refl, refl, λ c e. refl), tt)

-- A second round with a token that moved: the guest is not worked on again.
poll-IsLeft_example :
    IsLeft always 600 101
      (codes "d1")
      (poll always digests 600 10 (some (codes "u")) (some default_config) (some listed) fresh).0
      (record round { token = some (codes "w") } ∷ [])
poll-IsLeft_example =
    poll-IsLeft always 600 101 (codes "d1") fresh round
      (record round { token = some (codes "w") } ∷ []) refl worked quiet
