-- ===== src/Pct/Files.antt =====
-- src/pct.rs: files inside the guest, read and written with `pct`.
pub mod Documented
pub mod Writable
pub mod Atomic
pub mod Exact
pub mod Tests
use pve_compose.Base.{
  zero, suc, ℕ, ◌+◌, ◌*◌, ◌^◌, Bool, true, false, ◌&&◌, ◌||◌, not, Option, none, some, List, [],
  ◌∷◌, ◌++◌, Text, codes, is_empty, contains_char, contains, starts_with, trim, split, rsplit_once,
  length, ltb, ◌==◌, if◌then◌else◌, Result, ok, err, map_err, ok_or,
}
use pve_compose.Base.Decimal.{show}
use pve_compose.Cmd.{Output, Code, exit, minus_one, is_success, CmdError, run_within}
use pve_compose.Pct.Ran.{Ran, stays, with_result, behind, and_then}

-- What the node does for the program: `cmd::run_status` of `pct` with these arguments, and the host
-- side of a push, created and dropped.
pub record Node : Type 1 where
  pub S : Type 0
  pub run : List Text → S → Ran S CmdError Output
  pub create_copy : (content : Text) → S → Ran S CmdError Text
  pub drop_copy : (host : Text) → S → S

pub data FileError : Type 0 where
  not_written : (path : Text) → FileError
  no_copy : CmdError → FileError
  guest_call : (vmid : ℕ) (call : Text) → CmdError → FileError
  exit_failed : (vmid : ℕ) (script : Text) (status : Code) (stderr : Text) → FileError
  cannot_push : (path : Text) → CmdError → FileError
  above_cap : (path : Text) → FileError
  cannot_read : (path : Text) (status : Code) → FileError

-- `script.lines().find(…)`, trimmed
first_line : List Text → Text
first_line [] = []
first_line (l ∷ ls) = let later = first_line ls in if is_empty (trim l) then later else trim l

abbrev pub take : ℕ → Text → Text
take zero t = []
take (suc n) [] = []
take (suc n) (c ∷ t) = c ∷ take n t

pub brief : Text → Text
unfolding first_line
brief script =
    let line = first_line (split b'\n' script) in
    if ltb 60 (length line) then take 59 line ++ codes "…" else line

abbrev pub max_read : ℕ
max_read = 2 ^ 20

abbrev pub exec_args : ℕ → Text → List Text
exec_args vmid script =
    codes "exec" ∷ show vmid ∷ codes "--" ∷ codes "/bin/sh" ∷ codes "-c" ∷ script ∷ []

abbrev pub read_script : Text → Text
read_script path =
    codes "if [ -e '"
    ++ (path
        ++ (codes "' ]; then exec head -c "
            ++ (show (max_read + 1) ++ (codes " '" ++ (path ++ codes "'; else exit 3; fi")))))

abbrev pub mkdir_script : Text → Text
mkdir_script dir = codes "mkdir -p '" ++ (dir ++ codes "'")

abbrev pub rm_script : Text → Text
rm_script staged = codes "rm -f '" ++ (staged ++ codes "'")

abbrev pub mv_script : Text → Text → Text
mv_script staged path = codes "mv -f '" ++ (staged ++ (codes "' '" ++ (path ++ codes "'")))

abbrev pub push_args : ℕ → (host staged perms : Text) → List Text
push_args vmid host staged perms =
    codes "push"
    ∷ show vmid
    ∷ host
    ∷ staged
    ∷ codes "--perms"
    ∷ perms
    ∷ codes "--user"
    ∷ codes "0"
    ∷ codes "--group"
    ∷ codes "0"
    ∷ []

-- The guards of `write_file` on a path, and the directory and the name it is cut into.
abbrev filtered : Text → Option (Text × Text) → Option (Text × Text)
filtered path none = none
filtered path (some (d, n)) =
    if starts_with path (codes "/")
      && not (is_empty d)
      && not (is_empty n)
      && (not (contains_char b'\'' path)
          && not (contains path (codes "/../"))
          && not (contains path (codes "/./")))
    then some (d, n)
    else none

pub written_path : Text → Option (Text × Text)
written_path path = filtered path (rsplit_once b'/' path)

abbrev pub staged_name : (dir name : Text) → Text
staged_name dir name = dir ++ (codes "/." ++ (name ++ codes ".pve-compose-tmp"))

module _ (node : Node) (vmid : ℕ) where
  exec_status : Text → node.S → Ran node.S FileError Output
  exec_status script s =
      let r = node.run (exec_args vmid script) s in
      with_result r (map_err (guest_call vmid (brief script)) r.result)

  abbrev must_succeed : Text → Output → Result FileError Output
  must_succeed script out =
      if is_success out.status
      then ok out
      else err (exit_failed vmid script out.status (trim out.stderr))

  exec : Text → node.S → Ran node.S FileError Output
  unfolding exec_status
  exec script s = and_then (exec_status script s) (λ out s'. stays s' (must_succeed script out))

  abbrev pub is_exit : ℕ → Code → Bool
  is_exit n (exit m) = m == n
  is_exit n minus_one = false

  -- The `match` on the status.
  abbrev read_out : Text → Output → Result FileError (Option Text)
  read_out path out =
      if is_exit 0 out.status
      then (if ltb max_read (length out.stdout) then err (above_cap path) else ok (some out.stdout))
      else if is_exit 3 out.status
      then ok none
      else err (cannot_read path out.status)

  unfoldable pub read_file : Text → node.S → Ran node.S FileError (Option Text)
  unfolding exec_status
  read_file path s =
      and_then (exec_status (read_script path) s) (λ out s'. stays s' (read_out path out))

  -- The push: after a failed one the sibling is removed, whatever that gives.
  abbrev clean_up :
      (path staged : Text)
      → Ran node.S CmdError Output
      → Result CmdError Output
      → Ran node.S FileError Output
  clean_up path staged r (ok out) = with_result r (ok out)
  clean_up path staged r (err e) =
      let removed = exec_status (rm_script staged) r.now in
      with_result (behind r removed) (err (cannot_push path e))

  push : (path staged host perms : Text) → node.S → Ran node.S FileError Output
  unfolding exec_status
  push path staged host perms s =
      let args = push_args vmid host staged perms in
      let r = node.run args s in clean_up path staged r (run_within (codes "pct") args r.result)

  rename : (path staged : Text) → node.S → Ran node.S FileError (Unit {0})
  unfolding exec
  rename path staged s = and_then (exec (mv_script staged path) s) (λ _ s'. stays s' (ok tt))

  push_over : (path staged host perms : Text) → node.S → Ran node.S FileError (Unit {0})
  unfolding push rename
  push_over path staged host perms s =
      and_then (push path staged host perms s) (λ _ s'. rename path staged s')

  replace : (path dir staged host perms : Text) → node.S → Ran node.S FileError (Unit {0})
  unfolding exec push_over
  replace path dir staged host perms s =
      and_then (exec (mkdir_script dir) s) (λ _ s'. push_over path staged host perms s')

  -- The host copy is dropped when its scope ends.
  abbrev scoped : Text → Ran node.S FileError (Unit {0}) → Ran node.S FileError (Unit {0})
  scoped host r = behind r (stays (node.drop_copy host r.now) r.result)

  abbrev write_at :
      Text
      → (content perms : Text) → node.S
      → Option (Text × Text)
      → Ran node.S FileError (Unit {0})
  write_at path content perms s none = stays s (err (not_written path))
  write_at path content perms s (some (dir, name)) =
      let copy = node.create_copy content s in
      and_then (with_result copy (map_err no_copy copy.result))
        λ host s'. scoped host (replace path dir (staged_name dir name) host perms s')

  unfoldable pub write_file :
      Text → (content perms : Text) → node.S → Ran node.S FileError (Unit {0})
  unfolding written_path replace
  write_file path content perms s = write_at path content perms s (written_path path)
