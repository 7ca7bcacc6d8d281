-- ===== src/Stack/Layout.antt =====
-- The quotes of the script that src/stack.rs runs to make the stack's directories.
use native.Mathlib.Omega.{arith}
use pve_compose.Base.{
  ◌≡◌, refl, ap, ◌∙◌, List, [], ◌∷◌, ◌++◌, append_assoc, Text, codes, All, Lacks, split,
}
use pve_compose.Base.Cuts.{enclosed, enclosed_behind, enclosed_first}
use pve_compose.Layout.{stack_dir, volumes_dir, facts_dir}
use pve_compose.Stack.{chown_step, chown_steps, ensure_layout}

-- The texts between single quotes, for a script where no quote is escaped.
abbrev pub quoted : Text → List Text
quoted script = enclosed b'\'' (split b'\'' script)

-- What the script is to quote for one directory and its owner.
abbrev pub words : List (Text × Text) → List Text
words [] = []
words ((dir, owner) ∷ owners) = dir ∷ dir ∷ codes "0:0" ∷ owner ∷ dir ∷ words owners

abbrev pub AreBare : Text × Text → Type 0
AreBare (dir, owner) = Lacks b'\'' dir × Lacks b'\'' owner

-- One quoted text, behind a text with no quote.
word :
    (p q s : Text) {ws : List Text}
    → Lacks b'\'' p
    → Lacks b'\'' q
    → quoted s ≡ ws
    → quoted (p ++ b'\'' ∷ (q ++ b'\'' ∷ s)) ≡ q ∷ ws
word p q s hp hq e = enclosed_first b'\'' p q s hp hq ∙ ap (λ ws. q ∷ ws) e

chown_step-quoted :
    (dir owner rest : Text)
    → AreBare (dir, owner)
    → quoted (chown_step (dir, owner) ++ rest) ≡ dir ∷ dir ∷ codes "0:0" ∷ owner ∷ dir ∷ quoted rest
unfolding chown_step
chown_step-quoted dir owner rest (bare_dir, bare_owner) = simp (append_assoc) (
    word (codes " mkdir -p ") dir _ (ground arith) bare_dir (
      word (codes "; if [ \"$(stat -c %u:%g ") dir _ (ground arith) bare_dir (
        word (codes ")\" = ") (codes "0:0") _ (ground arith) (ground arith) (
          word (codes " ]; then chown ") owner _ (ground arith) bare_owner (
            word (codes " ") dir _ (ground arith) bare_dir
              (enclosed_behind b'\'' (codes "; fi;") rest (ground arith)))))))

chown_steps-quoted :
    (owners : List (Text × Text)) → All AreBare owners → quoted (chown_steps owners) ≡ words owners
unfolding chown_steps split
chown_steps-quoted [] _ = refl
chown_steps-quoted ((dir, owner) ∷ owners) (bare, bares) =
    chown_step-quoted dir owner (chown_steps owners) bare
    ∙ ap (λ ws. dir ∷ dir ∷ codes "0:0" ∷ owner ∷ dir ∷ ws) (chown_steps-quoted owners bares)

-- The script quotes the directories and the owners it is given, and `0:0`, each as it is, and nothing
-- else, when none of them holds a quote.
pub ensure_layout-quoted :
    (owners : List (Text × Text))
    → All AreBare owners
    → quoted (ensure_layout owners) ≡ words owners
unfolding ensure_layout
ensure_layout-quoted owners bares =
    enclosed_behind b'\'' front (chown_steps owners) (ground arith)
    ∙ chown_steps-quoted owners bares
  where
    front : Text
    front =
        codes "set -e; mkdir -p "
        ++ volumes_dir
        ++ codes " "
        ++ facts_dir
        ++ codes "; chmod 0755 "
        ++ stack_dir
        ++ codes ";"
