-- ===== src/Pct/Guest/Tests.antt =====
-- A container's config that is read, and the theorem there.
use pve_compose.Base.{◌≡◌, refl, true, false, none, some, List, [], ◌∷◌, Text, codes, All, ok}
use pve_compose.Base.Dict.{lookup, HasDistinctKeys}
use pve_compose.Size.Tests.{whole}
use pve_compose.Pct.Mount.{Mount}
use pve_compose.Pct.Guest.{GuestConfig, Json, string, other, parse_config}
use pve_compose.Pct.Guest.Keys.{IsKeyed}
use pve_compose.Pct.Guest.Parsed.{AreSorted, ComesFrom, parse_config-mounts}

abbrev obj : List (Text × Json)
obj =
    (codes "hostname", string (codes "web"))
    ∷ (codes "mp1", string (codes "/srv,mp=/b"))
    ∷ (codes "mp0", string (codes "tank:a,mp=/a,backup=1"))
    ∷ (codes "tags", string (codes "compose; x"))
    ∷ (codes "unprivileged", other (some 1) (codes "1"))
    ∷ []

abbrev config : GuestConfig
config = record {
  vmid = 101;
  hostname = some (codes "web");
  unprivileged = true;
  features = [];
  tags = codes "compose" ∷ codes "x" ∷ [];
  rootfs = none;
  mounts =
      record {
        key = codes "mp0";
        volume = codes "tank:a";
        mp = some (codes "/a");
        size = none;
        backup = true;
        other = [];
      }
      ∷ record {
        key = codes "mp1";
        volume = codes "/srv";
        mp = some (codes "/b");
        size = none;
        backup = false;
        other = [];
      }
      ∷ [];
  is_template = false;
}

read_config : parse_config whole 101 obj ≡ ok config
unfolding parse_config pve_compose.Base.text_dec pve_compose.Base.strip_prefix
    pve_compose.Pct.Mount.parse pve_compose.Base.split pve_compose.Base.split_once
    pve_compose.Base.trim pve_compose.Pct.Mount.index pve_compose.Base.Decimal.read
read_config = refl

distinct : HasDistinctKeys obj
unfolding lookup pve_compose.Base.text_dec
distinct = (refl, (refl, (refl, (refl, (refl, tt)))))

parse_config-mounts_example :
    IsKeyed config.mounts × AreSorted config.mounts × All (ComesFrom whole obj) config.mounts
parse_config-mounts_example = parse_config-mounts whole 101 obj config distinct read_config
