-- ===== src/Plan/Settled/Example/Documents.antt =====
-- The node of the example does what PVE documents.
use native.Mathlib.Omega.{arith}
use pve_compose.Base.{
  ℕ, ◌≡◌, refl, sym, ap, subst, ◌∙◌, Bool, true, false, none, some, List, [], ◌∷◌, ◌++◌,
  append_assoc, append-nil, Text, codes, text_eq, text_eq_ne, text_eq_refl, Lacks, rsplit_once,
  strip_prefix, strip_prefix-append, ok, text_dec,
}
use pve_compose.Size.{Size, Float}
use pve_compose.Size.Gib.{to_pct_gib}
use pve_compose.Pct.Mount.{Mount, parse, print}
use pve_compose.Pct.Guest.{GuestConfig}
use pve_compose.Pct.Guest.Keys.{IsKeyFree}
use pve_compose.Plan.Execute.{set_options, mp_arg, disk_arg, bind_arg, flag_text}
use pve_compose.Plan.Execute.Documented.{Documented, mp_key, Adds}
use pve_compose.Plan.Settled.Example.{large, has_key, line_of, new_mount, put, set_mount, after}

put-append :
    (k : Text) (f : Mount → Mount) (before later : List Mount) (m : Mount)
    → IsKeyFree k before
    → m.key ≡ k
    → put k f (before ++ m ∷ later) ≡ before ++ f m ∷ later
unfolding put
put-append k f [] later m free e = rw (e, text_eq_refl k) refl
put-append k f (n ∷ before) later m (differ, free) e =
    rw (text_eq_ne n.key k differ, put-append k f before later m free e) refl

has_key-append :
    (k : Text) (before later : List Mount) (m : Mount)
    → m.key ≡ k
    → has_key k (before ++ m ∷ later) ≡ true
has_key-append k [] later m e = rw (e, text_eq_refl k) refl
has_key-append k (n ∷ before) later m e = rw (has_key-append k before later m e) (ground arith)

free-has_key : (k : Text) (ms : List Mount) → IsKeyFree k ms → has_key k ms ≡ false
free-has_key k [] _ = refl
free-has_key k (m ∷ ms) (differ, free) = rw (text_eq_ne m.key k differ, free-has_key k ms free) refl

module _ (c : ℕ) where
  rsplit_once-none : (s : Text) → Lacks c s → rsplit_once c s ≡ none
  unfolding rsplit_once
  rsplit_once-none [] _ = refl
  rsplit_once-none (d ∷ s) (h, hs) = rw (rsplit_once-none s hs) (ground arith)

  rsplit_once-append : (p r : Text) → Lacks c r → rsplit_once c (p ++ c ∷ r) ≡ some (p, r)
  unfolding rsplit_once
  rsplit_once-append [] r h = rw (rsplit_once-none r h) (ground arith)
  rsplit_once-append (d ∷ p) r h = rw (rsplit_once-append p r h) refl

mp_key_other :
    (i : ℕ)
    → (text_eq (mp_key i) (codes "features") ≡ false) × (text_eq (mp_key i) (codes "tags") ≡ false)
unfolding text_dec
mp_key_other i = (refl, refl)

dashes : (i : ℕ) → strip_prefix (mp_arg i) (codes "--") ≡ some (mp_key i)
unfolding strip_prefix text_dec
dashes i = refl

flag_back : (b : Bool) → text_eq (codes "backup=" ++ flag_text b) (codes "backup=1") ≡ b
unfolding text_dec
flag_back true = refl
flag_back false = refl

flag_bare :
    (b : Bool)
    → (Lacks b',' (codes "backup=" ++ flag_text b))
      × (strip_prefix (codes "backup=" ++ flag_text b) (codes "mp=") ≡ none)
unfolding strip_prefix
flag_bare true = (ground arith, refl)
flag_bare false = (ground arith, refl)

mp-Lacks : (mp : Text) → Lacks b',' mp → Lacks b',' (codes "mp=" ++ mp)
mp-Lacks mp h = (ground arith, (ground arith, (ground arith, h)))

module _ (fl : Float) where
  -- A line with a key that is free adds a mount.
  set_new :
      (g : GuestConfig) (i : ℕ) (s : Text)
      → IsKeyFree (mp_key i) g.mounts
      → Adds g (new_mount (mp_key i) s) (after fl (set_options (mp_arg i ∷ s ∷ [])) g)
  unfolding after set_mount
  set_new g i s free =
      let (not_features, not_tags) = mp_key_other i in
      (
        g.mounts,
        [],
        sym (append-nil g.mounts),
        rw (dashes i, not_features, not_tags, free-has_key (mp_key i) g.mounts free) refl,
      )

  disk_cut :
      (mp storage : Text) (size : Size) (b : Bool)
      → rsplit_once b',' (disk_arg mp storage size b)
        ≡ some
            (bind_arg mp (storage ++ codes ":" ++ to_pct_gib size), codes "backup=" ++ flag_text b)
  disk_cut mp storage size b =
      let front = bind_arg mp (storage ++ codes ":" ++ to_pct_gib size) in
      ap (rsplit_once b',') (append_assoc front (codes ",backup=") (flag_text b))
      ∙ rsplit_once-append b',' front (codes "backup=" ++ flag_text b) (flag_bare b).0

  bind_cut :
      (mp path : Text)
      → Lacks b',' mp
      → rsplit_once b',' (bind_arg mp path) ≡ some (path, codes "mp=" ++ mp)
  bind_cut mp path h =
      ap (rsplit_once b',') (append_assoc path (codes ",mp=") mp)
      ∙ rsplit_once-append b',' path (codes "mp=" ++ mp) (mp-Lacks mp h)

  disk_mount :
      (i : ℕ) (mp storage : Text) (size : Size) (b : Bool)
      → Lacks b',' mp
      → (new_mount (mp_key i) (disk_arg mp storage size b)).mp ≡ some mp
  unfolding new_mount
  disk_mount i mp storage size b h = rw (disk_cut mp storage size b) (
      rw ((flag_bare b).1, bind_cut mp (storage ++ codes ":" ++ to_pct_gib size) h)
        (strip_prefix-append (codes "mp=") mp))

  disk_flag :
      (i : ℕ) (mp storage : Text) (size : Size) (b : Bool)
      → (new_mount (mp_key i) (disk_arg mp storage size b)).backup ≡ b
  unfolding new_mount
  disk_flag i mp storage size b = rw (disk_cut mp storage size b) (flag_back b)

  bind_mount :
      (i : ℕ) (mp path : Text)
      → Lacks b',' mp
      → (new_mount (mp_key i) (bind_arg mp path)).mp ≡ some mp
  unfolding new_mount
  bind_mount i mp path h = rw (bind_cut mp path h, strip_prefix-append (codes "mp=") mp) refl

  line_set :
      (g : GuestConfig) (before later : List Mount) (m m' n : Mount) (i : ℕ)
      → m.key ≡ mp_key i
      → g.mounts ≡ before ++ m ∷ later
      → IsKeyFree m.key before
      → parse fl m.key (print m') ≡ ok n
      → after fl (set_options ((codes "--" ++ m.key) ∷ print m' ∷ [])) g
        ≡ record g { mounts = before ++ n ∷ later }
  unfolding after set_mount
  line_set g before later m m' n i key cut free read =
      let (not_features, not_tags) = mp_key_other i in
      rw (strip_prefix-append (codes "--") m.key) (
        rw
          (
            subst (λ k. text_eq k (codes "features") ≡ false) (sym key) not_features,
            subst (λ k. text_eq k (codes "tags") ≡ false) (sym key) not_tags,
            cut,
            has_key-append m.key before later m refl,
            put-append m.key (line_of (parse fl m.key (print m'))) before later m free refl,
            read,
          )
          refl)

  pub after-Documented : Documented fl (after fl)
  unfolding after strip_prefix text_dec put new_mount
  after-Documented = record {
    features_set = λ s g. refl;
    tags_set = λ s g. refl;
    disk_made = λ g i mp storage size backup free lacks printed.
        let s = disk_arg mp storage size backup in
        (
          new_mount (mp_key i) s,
          refl,
          disk_mount i mp storage size backup lacks,
          omega arith,
          disk_flag i mp storage size backup,
          set_new g i s free,
        );
    bind_made = λ g i mp path free lacks written.
        let s = bind_arg mp path in
        (new_mount (mp_key i) s, refl, bind_mount i mp path lacks, set_new g i s free);
    disk_resized = λ g before later m to cut free also below printed. (
      large,
      omega arith,
      rw (cut, put-append m.key (λ n. record n { size = some large }) before later m free refl)
          refl,
    );
    mount_set = λ g before later m m' n i key cut free also read.
        line_set g before later m m' n i key cut free read;
  }
