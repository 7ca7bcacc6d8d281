-- ===== src/Ops/Template/Tests.antt =====
-- Templates of a storage for two architectures.
use pve_compose.Base.{◌≡◌, refl, some, ok, List, [], ◌∷◌, Text, codes, Result}
use pve_compose.Ops.Template.{
  newest_vztmpl, download_base, second_words, second_word, take_word, skip_space, skip_word,
  TemplateError,
}
use pve_compose.Ops.Template.Newest.{IsGreatest, newest_vztmpl-IsGreatest}

abbrev volids : List Text
volids =
    codes "local:vztmpl/debian-13-standard_13.6-1_amd64.tar.zst"
    ∷ codes "local:vztmpl/debian-13-standard_13.7-1_arm64.tar.zst"
    ∷ codes "local:vztmpl/debian-13-standard_13.1-2_amd64.tar.zst"
    ∷ []

newest :
    newest_vztmpl (codes "debian-13-standard_") (codes "amd64") volids
    ≡ some (codes "local:vztmpl/debian-13-standard_13.6-1_amd64.tar.zst")
unfolding newest_vztmpl pve_compose.Base.strip_prefix pve_compose.Base.split
    pve_compose.Base.Dict.text_lt
newest = refl

downloaded :
    Path
      (Result TemplateError Text)
      (download_base
        (codes "debian-13")
        (codes "amd64")
        (codes "local")
        (codes "system          debian-13_1_amd64.tar\nsystem  debian-12_1_amd64.tar\n"))
      (ok (codes "local:vztmpl/debian-13_1_amd64.tar"))
unfolding download_base pve_compose.Base.is_whitespace second_words second_word take_word skip_space
    skip_word pve_compose.Base.strip_prefix pve_compose.Base.split pve_compose.Base.Dict.text_lt
downloaded = refl

newest_vztmpl-IsGreatest_example :
    IsGreatest
      (codes "debian-13-standard_")
      (codes "amd64")
      volids
      (newest_vztmpl (codes "debian-13-standard_") (codes "amd64") volids)
newest_vztmpl-IsGreatest_example =
    newest_vztmpl-IsGreatest (codes "debian-13-standard_") (codes "amd64") volids
