-- ===== src/Ops/Template.antt =====
-- src/ops/template.rs: which template `new` unpacks.
pub mod Candidate
pub mod Newest
pub mod Tests
use pve_compose.Base.{
  ℕ, Bool, true, false, ◌&&◌, Option, none, some, List, [], ◌∷◌, ◌++◌, Text, codes, contains,
  starts_with, split, is_whitespace, trim, is_empty, if◌then◌else◌, Result, ok, err, ◌>>=◌,
}
use pve_compose.Base.Dict.{text_lt}

pub data TemplateError : Type 0 where
  no_architecture : TemplateError
  no_template : (storage explicit : Text) → TemplateError
  no_upstream : (arch base : Text) → TemplateError
  call_failed : TemplateError

-- `arch`, for what `dpkg --print-architecture` prints.
arch : Text → Result TemplateError Text
arch stdout = if is_empty (trim stdout) then err no_architecture else ok (trim stdout)

unfoldable pub for_arch : (name arch : Text) → Bool
unfolding contains
for_arch name arch = contains name (codes "_" ++ (arch ++ codes "."))

-- `id.rsplit('/').next()`
abbrev pub last_part : List Text → Text
last_part [] = []
last_part (p ∷ []) = p
last_part (p ∷ q ∷ ps) = last_part (q ∷ ps)

unfoldable pub is_match : (prefix arch id : Text) → Bool
unfolding for_arch
is_match prefix arch id =
    let n = last_part (split b'/' id) in starts_with n prefix && for_arch n arch

-- `iter().filter(…).collect()`
unfoldable pub filtered : (Text → Bool) → List Text → List Text
filtered p [] = []
filtered p (t ∷ ts) = let rest = filtered p ts in if p t then t ∷ rest else rest

-- `names.sort()`
unfoldable pub insert_name : Text → List Text → List Text
insert_name t [] = t ∷ []
insert_name t (u ∷ us) =
    let later = u ∷ insert_name t us in if text_lt u t then later else t ∷ u ∷ us

unfoldable pub sort : List Text → List Text
unfolding insert_name
sort [] = []
sort (t ∷ ts) = insert_name t (sort ts)

-- `names.pop()`
unfoldable pub pop : List Text → Option Text
pop [] = none
pop (t ∷ []) = some t
pop (t ∷ u ∷ us) = pop (u ∷ us)

-- `newest_vztmpl`, for the volids that the storage lists.
unfoldable pub newest_vztmpl : (prefix arch : Text) → (volids : List Text) → Option Text
unfolding is_match filtered sort pop
newest_vztmpl prefix arch volids = pop (sort (filtered (is_match prefix arch) volids))

-- `line.split_whitespace().nth(1)`
unfoldable pub take_word : Text → Text
take_word [] = []
take_word (c ∷ t) = if is_whitespace c then [] else c ∷ take_word t

unfoldable pub skip_space : Text → Text
skip_space [] = []
skip_space (c ∷ t) = if is_whitespace c then skip_space t else c ∷ t

unfoldable pub skip_word : Text → Text
skip_word [] = []
skip_word (c ∷ t) = if is_whitespace c then c ∷ t else skip_word t

unfoldable pub second_word : Text → Option Text
second_word line =
    let w = take_word (skip_space (skip_word (skip_space line))) in
    if is_empty w then none else some w

abbrev add_word : Option Text → List Text → List Text
add_word none ws = ws
add_word (some w) ws = w ∷ ws

unfoldable pub second_words : List Text → List Text
second_words [] = []
second_words (l ∷ ls) = add_word (second_word l) (second_words ls)

abbrev or_upstream : (arch base storage : Text) → Option Text → Result TemplateError Text
or_upstream arch base storage none = err (no_upstream arch base)
or_upstream arch base storage (some name) = ok (storage ++ (codes ":vztmpl/" ++ name))

-- `download_base`, for what `pveam available` prints: the volid of what is downloaded.
unfoldable pub download_base : (base arch storage stdout : Text) → Result TemplateError Text
unfolding filtered sort pop for_arch
download_base base arch storage stdout = or_upstream arch base storage (
    pop (
      sort (
        filtered (λ n. starts_with n (base ++ codes "_") && for_arch n arch)
          (second_words (split b'\n' stdout)))))

-- `resolve`, with the search of the storage and the download as they end.
abbrev or_none_starts : (storage explicit : Text) → Option Text → Result TemplateError Text
or_none_starts storage explicit none = err (no_template storage explicit)
or_none_starts storage explicit (some v) = ok v

abbrev or_download : Result TemplateError Text → Option Text → Result TemplateError Text
or_download download none = download
or_download download (some v) = ok v

unfoldable pub resolve :
    (newest : Text → Result TemplateError (Option Text))
    → (download : Result TemplateError Text) → (storage base : Text) → (explicit : Option Text)
    → Result TemplateError Text
unfolding contains
resolve newest download storage base (some e) =
    if contains e (codes ":vztmpl/") then ok e else newest e >>= or_none_starts storage e
resolve newest download storage base none = newest (base ++ codes "_") >>= or_download download
