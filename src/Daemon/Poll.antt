-- ===== src/Daemon/Poll.antt =====
-- src/ops/daemon.rs: one round of the loop of `run`.
pub mod Full
pub mod Once
use pve_compose.Base.{
  ℕ, ◌-◌, Bool, not, ◌||◌, Option, none, some, List, [], Text, text_eq, leb, if◌then◌else◌,
}
use pve_compose.Config.{Config}
use pve_compose.Ops.{Ctx}
use pve_compose.Pct.Listing.{Listed}
use pve_compose.Daemon.{Memo, pass}

-- What the loop carries. Times are in seconds.
pub record State : Type 0 where
  pub ctx : Ctx
  pub last_token : Text
  pub last_full : ℕ
  pub memo : Memo

-- A configuration that differs drops the memo; one that cannot be read is left as it was. `same` is
-- the equality of configurations.
unfoldable pub reload : (same : Config → Config → Bool) → Option Config → State → State
reload same none s = s
reload same (some c) s =
    if not (same c s.ctx.config)
    then record s { ctx = record (s.ctx) { config = c }; memo = [] }
    else s

-- The pass of a round; where the guests cannot be listed it fails and changes nothing.
unfoldable pub pass_of : (digests : ℕ → Option Text) → Option (List Listed) → State → State × List ℕ
pass_of digests none s = (s, [])
pass_of digests (some listed) s =
    let (memo', handled) = pass s.ctx digests s.memo listed in (record s { memo = memo' }, handled)

-- `now` is the clock, `token` what the poll gives, and `full_every` the interval that was read when
-- the loop began.
unfoldable pub poll :
    (same : Config → Config → Bool) (digests : ℕ → Option Text)
    → (full_every now : ℕ) → (token : Option Text) → (loaded : Option Config)
    → (listed : Option (List Listed)) → State
    → State × List ℕ
poll same digests full_every now none loaded listed s = (s, [])
poll same digests full_every now (some token) loaded listed s =
    let full = leb full_every (now - s.last_full) in
    let s₁ = reload same loaded s in
    let s₂ = if full then record s₁ { memo = []; last_full = now } else s₁ in
    let (s₃, handled) = pass_of digests listed s₂ in
    if not (text_eq token s.last_token) || full
    then (record s₃ { last_token = token }, handled)
    else (s₁, [])
