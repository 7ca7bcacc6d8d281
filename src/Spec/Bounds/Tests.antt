-- ===== src/Spec/Bounds/Tests.antt =====
-- The checks at concrete values, and the theorems there.
use pve_compose.Base.{◌≡◌, ◌↔◌, refl, [], ◌∷◌, Text, codes, ok, Any, split, strip_prefix, text_dec}
use pve_compose.Config.{Limits}
use pve_compose.Spec.Bounds.{check_clean_absolute, check_bind_path}
use pve_compose.Spec.Bounds.Paths.{IsClean, check_clean_absolute_iff}
use pve_compose.Spec.Bounds.Inside.{IsInside}
use pve_compose.Spec.Bounds.Accepted.{check_bind_path_iff}

abbrev limits : Limits
limits = record { bind_roots = codes "/srv" ∷ []; storages = codes "tank" ∷ []; max_disk_gib = 64 }

clean : (path : Text) → check_clean_absolute path ≡ ok tt → IsClean path
clean path = (check_clean_absolute_iff path).0

srv : IsClean (codes "/srv")
unfolding check_clean_absolute strip_prefix split text_dec
srv = clean (codes "/srv") refl

srv_media : IsClean (codes "/srv/media")
unfolding check_clean_absolute strip_prefix split text_dec
srv_media = clean (codes "/srv/media") refl

check_bind_path_iff_example :
    (check_bind_path (codes "media") (codes "/srv/media") limits ≡ ok tt) ↔ (
      IsClean (codes "/srv/media")
      × Any (λ root. IsInside root (codes "/srv/media")) limits.bind_roots)
check_bind_path_iff_example =
    check_bind_path_iff (codes "media") (codes "/srv/media") limits (srv, tt)
