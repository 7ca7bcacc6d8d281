-- ===== src/Prompt.antt =====
-- src/prompt.rs: questions at the terminal, for the lines that the user types.
pub mod First
pub mod Tests
use pve_compose.Base.{
  ℕ, zero, suc, ◌-◌, Bool, true, false, ◌&&◌, Option, none, some, List, [], ◌∷◌, map, Text, codes,
  text_eq, ◌||◌, trim, is_empty, leb, to_ascii_lowercase, if◌then◌else◌, Result, ok, err, ◌>>=◌,
}
use pve_compose.Base.Decimal.{read, u64_bound}

pub data PromptError : Type 0 where
  nothing_to_choose : PromptError
  no_answer : PromptError

-- `read_line` takes the next line; the end of the input is an error.
abbrev usable : ℕ → Option ℕ → Option ℕ
usable count none = none
usable count (some n) = if leb 1 n && leb n count then some (n - 1) else none

-- What the `match` of the loop makes of an answer.
unfoldable pub answer : (count : ℕ) → (line : Text) → Option ℕ
answer count line = usable count (read u64_bound (trim line))

abbrev pub or_again : Option ℕ → Result PromptError ℕ → Result PromptError ℕ
or_again none rest = rest
or_again (some i) rest = ok i

unfoldable pub choose_loop : (count : ℕ) → (lines : List Text) → Result PromptError ℕ
unfolding answer
choose_loop count [] = err no_answer
choose_loop count (l ∷ ls) = or_again (answer count l) (choose_loop count ls)

unfoldable pub choose : (count : ℕ) → (lines : List Text) → Result PromptError ℕ
unfolding choose_loop
choose zero lines = err nothing_to_choose
choose (suc n) lines = choose_loop (suc n) lines

abbrev yes : (default : Bool) → Text → Bool
yes default a = if is_empty a then default else text_eq a (codes "y") || text_eq a (codes "yes")

unfoldable pub yes_no : (default : Bool) → (lines : List Text) → Result PromptError Bool
yes_no default [] = err no_answer
yes_no default (l ∷ ls) = ok (yes default (map to_ascii_lowercase (trim l)))
