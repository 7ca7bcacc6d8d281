-- ===== src/Stack.antt =====
-- src/stack.rs: the command lines that run inside the guest, and the facts file.
pub mod Shell
pub mod Layout
pub mod Ps
pub mod Tests
use pve_compose.Base.{
  ℕ, Bool, ◌||◌, ◌&&◌, not, Option, none, some, List, [], ◌∷◌, ◌++◌, map, Text, codes, join, all,
  any, is_empty, is_ascii_lowercase, is_ascii_uppercase, is_ascii_digit, ◌==◌, if◌then◌else◌,
}
use pve_compose.Layout.{stack_dir, volumes_dir, facts_dir}

-- A character of `-_./:=@,`, or a letter or digit of ASCII.
abbrev pub is_safe : ℕ → Bool
is_safe c =
    is_ascii_lowercase c
    || is_ascii_uppercase c
    || is_ascii_digit c
    || any (λ d. c == d) (codes "-_./:=@,")

-- `s.replace('\'', "'\\''")`
pub escape : Text → Text
escape [] = []
escape (c ∷ s) = let rest = escape s in if c == 39 then codes "'\\''" ++ rest else c ∷ rest

pub shell_quote : Text → Text
shell_quote s = if not (is_empty s) && all is_safe s then s else codes "'" ++ escape s ++ codes "'"

abbrev compose : Text
compose = codes "cd " ++ stack_dir ++ codes " && docker compose"

-- The script of `passthrough`.
pub passthrough : List Text → Text
passthrough args = compose ++ codes " " ++ join (codes " ") (map shell_quote args)

chown_step : Text × Text → Text
chown_step (dir, owner) =
    codes " mkdir -p '"
    ++ (dir
        ++ (codes "'; if [ \"$(stat -c %u:%g '"
            ++ (dir
                ++ (codes "')\" = '0:0' ]; then chown '"
                    ++ (owner ++ (codes "' '" ++ (dir ++ codes "'; fi;")))))))

chown_steps : List (Text × Text) → Text
chown_steps [] = []
chown_steps (o ∷ owners) = chown_step o ++ chown_steps owners

-- The script of `ensure_layout`, for pairs of a directory and its owner.
unfoldable pub ensure_layout : List (Text × Text) → Text
unfolding chown_steps chown_step
ensure_layout owners =
    codes "set -e; mkdir -p "
    ++ volumes_dir
    ++ codes " "
    ++ facts_dir
    ++ codes "; chmod 0755 "
    ++ stack_dir
    ++ codes ";"
    ++ chown_steps owners

pub record Facts : Type 0 where
  pub digest : Text
  pub template : Option Text
  pub applied_at : Text
  pub by : Text

abbrev template_of : Option Facts → Option Text
template_of none = none
template_of (some f) = f.template

-- `now` and `version` are the clock's time and the package's version.
abbrev pub facts_now : (now version digest : Text) → Option Facts → Facts
facts_now now version digest previous = record {
  digest = digest;
  template = template_of previous;
  applied_at = now;
  by = version;
}
