-- ===== src/Plan/Settled/Texts.antt =====
-- The texts that src/plan.rs gives to `pct set`, as src/pct.rs reads them back.
use native.Mathlib.Omega.{arith}
use pve_compose.Base.{
  ℕ, ◌≡◌, ◌≢◌, refl, ap, ◌∙◌, true, false, List, [], ◌∷◌, ◌++◌, append_assoc, Text, codes, text_eq,
  text_eq_refl, is_empty, any, All, All-append, Lacks, split_once, split_once-append, join, map,
  trim, trim_graphic, Bool-cases, Option-cases, inl, inr, none,
}
use pve_compose.Base.Cuts.{split-join}
use pve_compose.Base.Dict.{Dict, lookup, insert, or_insert, lookup-insert, text_lt}
use pve_compose.Pct.Guest.{GuestConfig, has_tag, tags_of, trimmed_parts, add_features, feature_of}
use pve_compose.Plan.Build.{features_text, wanted_features}
use pve_compose.Plan.Execute.{tags_arg}
use pve_compose.Plan.Execute.Documented.{features_of}

-- A text that stands as an item between separators: with none in it, no space around it, not empty.
abbrev pub IsItem : ℕ → Text → Type 0
IsItem c t = Lacks c t × (trim t ≡ t) × (is_empty t ≡ false)

trimmed_items : (c : ℕ) (ps : List Text) → All (IsItem c) ps → trimmed_parts ps ≡ ps
unfolding trimmed_parts
trimmed_items c [] h = refl
trimmed_items c (p ∷ ps) ((_, trimmed, there), hs) = rw (trimmed_items c ps hs, trimmed, there) refl

items-Lacks : (c : ℕ) (ps : List Text) → All (IsItem c) ps → All (Lacks c) ps
items-Lacks c [] h = tt
items-Lacks c (p ∷ ps) ((h, _, _), hs) = (h, items-Lacks c ps hs)

any_last : (tags : List Text) (t : Text) → any (λ u. text_eq u t) (tags ++ t ∷ []) ≡ true
any_last [] t = rw (text_eq_refl t) refl
any_last (u ∷ tags) t = rw (any_last tags t) (ground arith)

tags_back :
    (p : Text) (ps : List Text)
    → All (IsItem b';') (p ∷ ps)
    → tags_of (join (codes ";") (p ∷ ps)) ≡ p ∷ ps
unfolding tags_of
tags_back p ps h =
    ap trimmed_parts (split-join b';' p ps (items-Lacks b';' (p ∷ ps) h))
    ∙ trimmed_items b';' (p ∷ ps) h

-- The tags with one more behind them are read back.
pub tags_of-tags_arg :
    (g : GuestConfig) (t : Text)
    → All (IsItem b';') g.tags
    → IsItem b';' t
    → tags_of (tags_arg g t) ≡ g.tags ++ t ∷ []
tags_of-tags_arg g t hs h = back g.tags hs
  where
    back :
        (tags : List Text)
        → All (IsItem b';') tags
        → tags_of (join (codes ";") (tags ++ t ∷ [])) ≡ tags ++ t ∷ []
    back [] _ = tags_back t [] (h, tt)
    back (u ∷ tags) us =
        tags_back u (tags ++ t ∷ []) (us.0, All-append (IsItem b';') tags (t ∷ []) us.1 (h, tt))

pub has_tag-append :
    (g : GuestConfig) (t : Text) → has_tag (record g { tags = g.tags ++ t ∷ [] }) t ≡ true
unfolding has_tag
has_tag-append g t = any_last g.tags t

-- A feature whose text is read back: no comma, no `=` in the name, no space around it.
abbrev pub IsFeature : Text × Text → Type 0
IsFeature (k, v) = Lacks b'=' k × IsItem b',' (k ++ codes "=" ++ v)

insert-All :
    (P : Text × Text → Type 0) (k v : Text) (m : Dict Text)
    → P (k, v)
    → All P m
    → All P (insert k v m)
unfolding insert
insert-All P k v [] h _ = (h, tt)
insert-All P k v ((j, w) ∷ m) h (here, hs) = elim (Bool-cases (text_eq k j)) [
  | inl same ↦ rw same (h, hs)
  | inr differ ↦ elim (Bool-cases (text_lt k j)) [
    | inl lt ↦ rw (differ, lt) (h, (here, hs))
    | inr later ↦ rw (differ, later) (here, insert-All P k v m h hs)
  ]
]

or_insert-All :
    (P : Text × Text → Type 0) (k v : Text) (m : Dict Text)
    → P (k, v)
    → All P m
    → All P (or_insert k v m)
unfolding or_insert
or_insert-All P k v m h hs = elim (Option-cases (lookup k m)) [
  | inl missing ↦ rw (missing, or_insert) (insert-All P k v m h hs)
  | inr (w, there) ↦ rw (there, or_insert) hs
]

-- The two features that docker needs are read back.
two_features : IsFeature (codes "nesting", codes "1") × IsFeature (codes "keyctl", codes "1")
two_features = (
  (ground arith, (ground arith, trim_graphic (codes "nesting=1") (ground arith), refl)),
  (ground arith, (ground arith, trim_graphic (codes "keyctl=1") (ground arith), refl)),
)

pub wanted_features-IsFeature :
    (m : Dict Text) → All IsFeature m → All IsFeature (wanted_features m)
unfolding wanted_features
wanted_features-IsFeature m hs =
    let (nesting, keyctl) = two_features in
    or_insert-All IsFeature _ _ _ keyctl (or_insert-All IsFeature _ _ m nesting hs)

-- A feature that is there stays while more are read.
add_features_keep :
    (j : Text) (items : List Text) (m : Dict Text)
    → lookup j m ≢ none
    → lookup j (add_features items m) ≢ none
unfolding add_features
add_features_keep j [] m h = h
add_features_keep j (item ∷ items) m h =
    let (k, v) = feature_of item (split_once b'=' item) in
    add_features_keep j items (insert k v m) (
      rw (lookup-insert j k v m) (elim (Bool-cases (text_eq j k)) [
        | inl same ↦ rw same (λ e. cc e)
        | inr differ ↦ rw differ h
      ]))

abbrev feature_item : Text × Text → Text
feature_item (k, v) = k ++ codes "=" ++ v

features-IsItem : (m : Dict Text) → All IsFeature m → All (IsItem b',') (map feature_item m)
features-IsItem [] _ = tt
features-IsItem ((k, v) ∷ m) ((_, item), hs) = (item, features-IsItem m hs)

add_features_found :
    (j : Text) (m acc : Dict Text)
    → All IsFeature m
    → lookup j m ≢ none
    → lookup j (add_features (map feature_item m) acc) ≢ none
unfolding add_features lookup
add_features_found j [] acc _ h = absurd (h refl)
add_features_found j ((k, v) ∷ m) acc ((lacks, _), hs) h =
    rw (append_assoc k (codes "=") v, split_once-append b'=' k v lacks)
      (elim (Bool-cases (text_eq j k)) [
        | inl same ↦
            add_features_keep j (map feature_item m) (insert k v acc)
              (rw (lookup-insert j k v acc, same) (λ e. cc e))
        | inr differ ↦ add_features_found j m (insert k v acc) hs (rw differ at h)
      ])

-- A feature of the text that the plan sets is there when the text is read.
pub features_of-features_text :
    (j : Text) (m : Dict Text)
    → All IsFeature m
    → lookup j m ≢ none
    → lookup j (features_of (features_text m)) ≢ none
unfolding lookup
features_of-features_text j [] _ h = absurd (h refl)
features_of-features_text j (kv ∷ m) hs h =
    let items = features-IsItem (kv ∷ m) hs in
    let text = map feature_item m in
    rw
      (
        split-join b',' (feature_item kv) text (items-Lacks b',' (feature_item kv ∷ text) items),
        trimmed_items b',' (feature_item kv ∷ text) items,
      )
      (add_features_found j (kv ∷ m) [] hs h)
