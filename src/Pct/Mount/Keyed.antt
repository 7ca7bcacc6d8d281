-- ===== src/Pct/Mount/Keyed.antt =====
-- The key of a mount that src/pct.rs has read is the one of its line.
use pve_compose.Base.{
  ◌≡◌, sym, ap, ◌∙◌, List, [], ◌∷◌, Text, codes, text_eq, is_empty, split, split_once, trim, ok,
  some, Result, map_err, ◌>>=◌, ok_or, >>=-eq-ok, ok-injective, if-either,
}
use pve_compose.Size.{Float, from_str}
use pve_compose.Pct.Mount.{
  Mount, MountError, bad_option, bad_mount_size, set_option, set_options, fresh, first_volume,
  parse_parts, parse,
}

module _ (fl : Float) (key : Text) where
  set_option-key :
      (m : Mount) (k v : Text) (m' : Mount) → set_option fl key m k v ≡ ok m' → m'.key ≡ m.key
  unfolding set_option
  set_option-key m k v m' =
      if-either (text_eq k (codes "mp")) (λ _. set_as)
        (λ _.
          if-either (text_eq k (codes "size")) (λ _. sized)
            (λ _.
              if-either (text_eq k (codes "backup")) (λ _. set_as)
                (λ _. if-either (text_eq k (codes "volume")) (λ _. set_as) (λ _. set_as))))
    where
      set_as : {n : Mount} → Path (Result MountError Mount) (ok n) (ok m') → m'.key ≡ n.key
      set_as h = ap (λ (n : Mount). n.key) (sym (ok-injective h))

      sized :
          (map_err (bad_mount_size key) (from_str fl v) >>= (λ s. ok (record m { size = some s })))
            ≡ ok m'
          → m'.key ≡ m.key
      sized h =
          let (s, _, e) = >>=-eq-ok (map_err (bad_mount_size key) (from_str fl v)) _ h in set_as e

  set_options-key :
      (ps : List Text) (m m' : Mount) → set_options fl key m ps ≡ ok m' → m'.key ≡ m.key
  unfolding set_options
  set_options-key [] m m' h = ap (λ (n : Mount). n.key) (sym (ok-injective h))
  set_options-key (p ∷ ps) m m' h =
      let ((k, v), _, h₁) = >>=-eq-ok (ok_or (split_once b'=' p) (bad_option p key)) _ h in
      let (n, set, h₂) = >>=-eq-ok (set_option fl key m k v) _ h₁ in
      set_options-key ps n m' h₂ ∙ set_option-key m k v n set

  pub parse-key : (line : Text) (m : Mount) → parse fl key line ≡ ok m → m.key ≡ key
  unfolding parse
  parse-key line m = of_parts (split b',' line)
    where
      of_parts : (ps : List Text) → parse_parts fl key ps ≡ ok m → m.key ≡ key
      of_parts [] h = absurd (cc h)
      of_parts (first ∷ options) h =
          let (n, set, h₁) =
            >>=-eq-ok (set_options fl key (fresh fl key (first_volume (trim first))) options) _ h in
          if-either (is_empty n.volume) (λ _ e. absurd (cc e))
            (λ _ e.
              ap (λ (x : Mount). x.key) (sym (ok-injective e))
              ∙ set_options-key options (fresh fl key (first_volume (trim first))) n set)
            h₁
