-- ===== src/Pct/Mount/Tests.antt =====
-- One mount line, written and read back.
use native.Mathlib.Omega.{arith}
use pve_compose.Base.{ℕ, ◌*◌, ◌≡◌, refl, true, some, [], ◌∷◌, codes, ok}
use pve_compose.Size.{gib}
use pve_compose.Size.Tests.{whole, whole-IsExact}
use pve_compose.Pct.Mount.{Mount, parse, print}
use pve_compose.Pct.Mount.Written.{IsWritten}
use pve_compose.Pct.Mount.RoundTrip.{parse-print}

abbrev data_mount : Mount
data_mount = record {
  key = codes "mp0";
  volume = codes "local-lvm:vm-105-disk-1";
  mp = some (codes "/data");
  size = some (record { bytes = 8 * gib });
  backup = true;
  other = (codes "acl", codes "1") ∷ (codes "ro", codes "1") ∷ [];
}

data_mount-IsWritten : IsWritten data_mount
unfolding pve_compose.Base.trim pve_compose.Base.strip_prefix pve_compose.Base.text_dec
    pve_compose.Base.Dict.text_lt
data_mount-IsWritten = record {
  volume_there = (λ e. cc e);
  volume_lacks = omega arith;
  volume_trim = refl;
  volume_bare = refl;
  mp_lacks = omega arith;
  size_written = omega arith;
  others_written = (
    ((omega arith, omega arith, refl, refl, refl, refl), omega arith),
    (((omega arith, omega arith, refl, refl, refl, refl), omega arith), tt),
  );
  others_sorted = ((refl, tt), (tt, tt));
}

printed : print data_mount ≡ codes "local-lvm:vm-105-disk-1,mp=/data,size=8G,backup=1,acl=1,ro=1"
unfolding print pve_compose.Size.display pve_compose.Base.Decimal.show
printed = refl

parse-print_example : parse whole (codes "mp0") (print data_mount) ≡ ok data_mount
parse-print_example = parse-print whole whole-IsExact data_mount data_mount-IsWritten
