-- ===== src/Apply/Docker/QuotedTests.antt =====
-- The directories of the volumes of a concrete document.
use pve_compose.Base.{◌≡◌, refl, [], ◌∷◌, codes, ok}
use pve_compose.Spec.Yaml.{string, mapping, end, entry}
use pve_compose.Spec.Bounds.{split_owner}
use pve_compose.Spec.Volumes.Tests.{limits, from_value, declared, cache, media, read}
use pve_compose.Stack.{ensure_layout}
use pve_compose.Stack.Layout.{quoted, words}
use pve_compose.Apply.Docker.{owners}
use pve_compose.Apply.Docker.Quoted.{layout-IsQuoted}

numeric : split_owner (codes "1000:100") ≡ ok (codes "1000", codes "100")
unfolding split_owner pve_compose.Base.split_once
numeric = refl

layout-IsQuoted_example :
    quoted (ensure_layout (owners (codes "1000:100") (cache ∷ media ∷ [])))
    ≡ words (owners (codes "1000:100") (cache ∷ media ∷ []))
layout-IsQuoted_example =
    layout-IsQuoted from_value limits
      (mapping (entry (string (codes "volumes")) (mapping declared) end)) (cache ∷ media ∷ [])
      (codes "1000:100") (codes "1000") (codes "100") read numeric
