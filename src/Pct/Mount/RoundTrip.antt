-- ===== src/Pct/Mount/RoundTrip.antt =====
-- Reading back a mount line that src/pct.rs has written.
use pve_compose.Base.{
  ◌≡◌, ◌≢◌, refl, sym, ap, subst, ◌∙◌, Bool, true, false, Option, none, some, List, [], ◌∷◌, ◌++◌,
  append_assoc, append-nil, Text, codes, text_dec, is_empty, All, Lacks, All-append, split_once,
  split_once-append, if◌then◌else◌, inl, inr, ok, Result-cases, Option-cases, ◌>>=◌,
}
use pve_compose.Base.Dict.{Dict}
use pve_compose.Base.Dict.Sorted.{IsSorted, Precedes, Precedes-snoc, Precedes-nil, insert_last}
use pve_compose.Size.{Size, Float, display, from_str}
use pve_compose.Size.RoundTrip.{IsExact, from_str-display}
use pve_compose.Pct.Mount.{
  Mount, first_volume, set_option, set_options, fresh, parse, option_text, size_text, others_text,
  options_text, print,
}
use pve_compose.Pct.Mount.Written.{
  comma, split-with_commas, IsWrittenSize, AreOthers, IsWritten, Lacks-mp, Lacks-size, Lacks-backup,
  Lacks-others,
}

not_empty : (t : Text) → t ≢ [] → is_empty t ≡ false
not_empty [] h = absurd (h refl)
not_empty (c ∷ t) h = refl

module _ (fl : Float) where
  set_options-append :
      (key : Text) (m : Mount) (ps qs : List Text)
      → set_options fl key m (ps ++ qs)
        ≡ (set_options fl key m ps >>= λ m'. set_options fl key m' qs)
  unfolding set_options
  set_options-append key m [] qs = refl
  set_options-append key m (p ∷ ps) qs = elim (Option-cases (split_once b'=' p)) [
    | inl none_there ↦ rw none_there refl
    | inr ((k, v), e) ↦ elim (Result-cases (set_option fl key m k v)) [
      | inl (bad, b) ↦ rw (e, b) refl
      | inr (m', g) ↦ rw (e, g) (set_options-append key m' ps qs)
    ]
  ]

  -- One loop per option of the line.
  set_mp :
      (key : Text) (m : Mount) (mp : Option Text)
      → m.mp ≡ none
      → set_options fl key m (option_text "mp=" mp) ≡ ok (record m { mp = mp })
  unfolding set_options set_option split_once text_dec
  set_mp key m none h = λ i. ok (record m { mp = h i })
  set_mp key m (some v) h = refl

  set_size :
      (key : Text) (m : Mount) (size : Option Size)
      → m.size ≡ none
      → ((s : Size) → size ≡ some s → from_str fl (display s) ≡ ok s)
      → set_options fl key m (option_text "size=" (size_text size)) ≡ ok (record m { size = size })
  unfolding set_options set_option split_once text_dec
  set_size key m none h r = λ i. ok (record m { size = h i })
  set_size key m (some s) h r = rw (r s refl) refl

  set_backup :
      (key : Text) (m : Mount) (backup : Bool)
      → m.backup ≡ false
      → set_options fl key m (if backup then codes "backup=1" ∷ [] else [])
        ≡ ok (record m { backup = backup })
  unfolding set_options set_option split_once text_dec
  set_backup key m true h = refl
  set_backup key m false h = λ i. ok (record m { backup = h i })

  set_others :
      (key : Text) (m : Mount) (other : Dict Text)
      → AreOthers other
      → IsSorted other
      → Precedes m.other other
      → set_options fl key m (others_text other) ≡ ok (record m { other = m.other ++ other })
  unfolding set_options set_option others_text
  set_others key m [] a s p = λ i. ok (record m { other = sym (append-nil m.other) i })
  set_others key m ((k, v) ∷ other) (((kc, ke, mp, size, backup, volume), vc), a) (above, s)
        (below, p) =
      rw (append_assoc k (codes "=") v, split_once-append b'=' k v ke, mp, size, backup, volume)
        (rw (insert_last k v m.other below) (
          set_others key (record m { other = m.other ++ (k, v) ∷ [] }) other a s
            (Precedes-snoc k v m.other other p above)
          ∙ ap (λ o. ok (record m { other = o })) (append_assoc m.other ((k, v) ∷ []) other)))

  read_size :
      IsExact fl
      → (size : Option Size) → IsWrittenSize size
      → (s : Size) → size ≡ some s
      → from_str fl (display s) ≡ ok s
  read_size exact none w s e = cc e
  read_size exact (some t) (whole, pos, fits) s e =
      subst (λ u. from_str fl (display u) ≡ ok u) (same t s e)
        (from_str-display fl exact t whole pos fits)
    where
      same : (t s : Size) → Path (Option Size) (some t) (some s) → t ≡ s
      same t s e = cc e

  options-read :
      IsExact fl
      → (m : Mount) → IsWritten m
      → set_options fl m.key (fresh fl m.key m.volume) (options_text m) ≡ ok m
  unfolding options_text
  options-read exact m w =
      let key = m.key in
      let m₀ : Mount = fresh fl key m.volume in
      let m₁ : Mount = record m₀ { mp = m.mp } in
      let m₂ : Mount = record m₁ { size = m.size } in
      let m₃ : Mount = record m₂ { backup = m.backup } in
      let A = option_text "mp=" m.mp in
      let B = option_text "size=" (size_text m.size) in
      let C = if m.backup then codes "backup=1" ∷ [] else [] in
      let D = others_text m.other in
      set_options-append key m₀ (A ++ B ++ C) D
      ∙ ap (λ r. r >>= λ n. set_options fl key n D)
          (set_options-append key m₀ (A ++ B) C
            ∙ ap (λ r. r >>= λ n. set_options fl key n C)
                (set_options-append key m₀ A B
                  ∙ (ap (λ r. r >>= λ n. set_options fl key n B) (set_mp key m₀ m.mp refl)
                      ∙ set_size key m₁ m.size refl (read_size exact m.size w.size_written)))
            ∙ set_backup key m₂ m.backup refl)
      ∙ set_others key m₃ m.other w.others_written w.others_sorted (Precedes-nil m.other)

  options-Lacks : (m : Mount) → IsWritten m → All (Lacks comma) (options_text m)
  unfolding options_text
  options-Lacks m w =
      All-append (Lacks comma) (A ++ B ++ C) D
        (All-append (Lacks comma) (A ++ B) C
          (All-append (Lacks comma) A B (Lacks-mp m.mp w.mp_lacks) (Lacks-size m.size))
          (Lacks-backup m.backup))
        (Lacks-others m.other w.others_written)
    where
      A : List Text
      A = option_text "mp=" m.mp

      B : List Text
      B = option_text "size=" (size_text m.size)

      C : List Text
      C = if m.backup then codes "backup=1" ∷ [] else []

      D : List Text
      D = others_text m.other

  -- With exact floats a mount is read back from its line as it was, if its volume is not empty, has no
  -- space around it and does not begin with `volume=`; no text of it holds a comma; its size, if any, is
  -- a positive number of KiB below 2 ^ 63 bytes; and the keys of its other options rise, hold no `=`
  -- and are none of mp, size, backup and volume.
  pub parse-print : IsExact fl → (m : Mount) → IsWritten m → parse fl m.key (print m) ≡ ok m
  unfolding parse print first_volume
  parse-print exact m w =
      rw (split-with_commas m.volume (options_text m) w.volume_lacks (options-Lacks m w)) (
        rw (w.volume_trim, w.volume_bare, options-read exact m w, not_empty m.volume w.volume_there)
          refl)
