-- ===== src/Plan/Settled/Example.antt =====
-- A node that does what PVE documents of the calls of src/plan.rs, with disks of one large size.
pub mod Documents
use native.Mathlib.Omega.{arith}
use pve_compose.Base.{
  ℕ, ◌+◌, ◌^◌, ◌<◌, ◌≤◌, ◌≡◌, ◌≢◌, refl, sym, ap, subst, ◌∙◌, Bool, true, false, Option, none, some,
  List, [], ◌∷◌, ◌++◌, append_assoc, append-nil, Text, codes, text_eq, text_eq_ne, text_eq_refl,
  is_text, any, All, Lacks, Bool-cases, Option-cases, rsplit_once, strip_prefix,
  strip_prefix-append, if◌then◌else◌, Result, ok, err, inl, inr, text_dec,
}
use pve_compose.Base.Decimal.{show}
use pve_compose.Size.{Size, Float, mib}
use pve_compose.Size.Gib.{to_pct_gib}
use pve_compose.Pct.Mount.{Mount, MountError, parse, print}
use pve_compose.Pct.Guest.{GuestConfig, tags_of}
use pve_compose.Pct.Guest.Keys.{IsKeyFree}
use pve_compose.Plan.Execute.{Call, set_options, resize_disk, mp_arg, disk_arg, bind_arg, flag_text}
use pve_compose.Plan.Execute.Documented.{Documented, features_of, mp_key, Adds, IsBelow, IsPrinted}

abbrev pub large : Size
large = record { bytes = 2 ^ 53 }

-- The text behind the last comma, and what the option in it is set to.
abbrev pub cut_of : Text → Option (Text × Text) → Text × Text
cut_of s none = ([], s)
cut_of s (some c) = c

abbrev pub last_cut : Text → Text × Text
last_cut s = cut_of s (rsplit_once b',' s)

abbrev pub or_else : Option Text → Option Text → Option Text
or_else (some t) o = some t
or_else none o = o

pub new_mount : Text → Text → Mount
new_mount key s =
    let (front, back) = last_cut s in
    record {
      key = key;
      volume = codes "tank:new";
      mp =
          or_else (strip_prefix back (codes "mp=")) (strip_prefix (last_cut front).1 (codes "mp="));
      size = some large;
      backup = text_eq back (codes "backup=1");
      other = [];
    }

abbrev pub has_key : Text → List Mount → Bool
has_key k ms = any (λ m. text_eq m.key k) ms

-- The first mount with the key is replaced.
pub put : Text → (Mount → Mount) → List Mount → List Mount
put k f [] = []
put k f (m ∷ ms) = let rest = put k f ms in if text_eq m.key k then f m ∷ ms else m ∷ rest

abbrev pub line_of : Result MountError Mount → Mount → Mount
line_of (ok n) m = n
line_of (err e) m = m

module _ (fl : Float) where
  pub set_mount : Text → Text → GuestConfig → GuestConfig
  unfolding put new_mount
  set_mount key s g =
      if has_key key g.mounts
      then record g { mounts = put key (line_of (parse fl key s)) g.mounts }
      else record g { mounts = g.mounts ++ new_mount key s ∷ [] }

  abbrev pub set_key : Option Text → Text → GuestConfig → GuestConfig
  set_key none s g = g
  set_key (some key) s g =
      if text_eq key (codes "features")
      then record g { features = features_of s }
      else if text_eq key (codes "tags")
      then record g { tags = tags_of s }
      else set_mount key s g

  unfoldable pub after : Call → GuestConfig → GuestConfig
  unfolding set_mount
  after (set_options (a ∷ s ∷ [])) g = set_key (strip_prefix a (codes "--")) s g
  after (set_options _) g = g
  after (resize_disk key size) g = record g {
    mounts = put key (λ m. record m { size = some large }) g.mounts;
  }
