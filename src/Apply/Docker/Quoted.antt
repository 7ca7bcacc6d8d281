-- ===== src/Apply/Docker/Quoted.antt =====
-- The script that src/ops/apply.rs has src/stack.rs run for the volumes of a document.
use native.Mathlib.Omega.{arith}
use pve_compose.Base.{
  ◌≡◌, ◌≢◌, ◌⊎◌, inl, inr, sym, subst, true, Option, none, some, List, [], ◌∷◌, ◌++◌, Text, codes,
  All, All-append, All-map, all→All, Lacks, ok,
}
use pve_compose.Config.{Limits}
use pve_compose.Layout.{volumes_dir}
use pve_compose.Spec.Yaml.{Value}
use pve_compose.Spec.Bounds.{is_name_char, valid_volume_name, split_owner}
use pve_compose.Spec.Bounds.Accepted.{IsNumeral, split_owner_sound}
use pve_compose.Spec.Volumes.{Volume, XPve, dir, volumes}
use pve_compose.Spec.Volumes.Permitted.{IsOwner, IsPermitted, volumes-IsPermitted}
use pve_compose.Stack.{ensure_layout}
use pve_compose.Stack.Layout.{quoted, words, AreBare, ensure_layout-quoted}
use pve_compose.Apply.Docker.{owner_or, owners}

abbrev IsBare : Text → Type 0
IsBare = Lacks b'\''

name-IsBare : (name : Text) → valid_volume_name name ≡ true → IsBare name
unfolding valid_volume_name
name-IsBare name h = All-map (λ c k. ground arith) name (all→All is_name_char name (ground arith))

numeral-IsBare : (s : Text) → IsNumeral s → IsBare s
numeral-IsBare s (_, h) = All-map (λ c k. ground arith) s h

owner-IsBare : (o u g : Text) → split_owner o ≡ ok (u, g) → IsBare o
owner-IsBare o u g h = form (split_owner_sound o u g h)
  where
    form : IsNumeral u × IsNumeral g × ((o ≡ u ++ b':' ∷ g) ⊎ ((o ≡ u) × (o ≡ g))) → Lacks b'\'' o
    form (nu, ng, inl e) = subst (Lacks b'\'') (sym e) (
        All-append (λ d. d ≢ b'\'') u (b':' ∷ g) (numeral-IsBare u nu)
          (ground arith, numeral-IsBare g ng))
    form (nu, ng, inr (e, _)) = subst (Lacks b'\'') (sym e) (numeral-IsBare u nu)

module _ (default u g : Text) (checked : split_owner default ≡ ok (u, g)) (limits : Limits) where
  volume-AreBare : (v : Volume) → IsPermitted limits v → AreBare (dir v, owner_or default v.owner)
  unfolding dir
  volume-AreBare v p = (
    All-append (λ d. d ≢ b'\'') (volumes_dir ++ codes "/") v.name (ground arith)
        (name-IsBare v.name p.named),
    owned v.owner p.owned,
  )
    where
      owned : (o : Option Text) → IsOwner o → Lacks b'\'' (owner_or default o)
      owned none _ = owner-IsBare default u g checked
      owned (some o) (u', g', _, _, e) = owner-IsBare o u' g' e

  owners-AreBare :
      (vs : List Volume) → All (IsPermitted limits) vs → All AreBare (owners default vs)
  owners-AreBare [] _ = tt
  owners-AreBare (v ∷ vs) (p, ps) = (volume-AreBare v p, owners-AreBare vs ps)

-- For the volumes of a document and a default owner in digits, the script that makes the directories
-- quotes each directory and each owner as it is and nothing else but `0:0`: no name, path or owner
-- of a document gets out of its quotes into the guest's root shell.
pub layout-IsQuoted :
    (from_value : Value → Option XPve) (limits : Limits) (spec : Value) (vs : List Volume)
    (default u g : Text)
    → volumes from_value spec limits ≡ ok vs
    → split_owner default ≡ ok (u, g)
    → quoted (ensure_layout (owners default vs)) ≡ words (owners default vs)
layout-IsQuoted from_value limits spec vs default u g read checked =
    ensure_layout-quoted (owners default vs) (
      owners-AreBare default u g checked limits vs
        (volumes-IsPermitted from_value limits spec vs read))
