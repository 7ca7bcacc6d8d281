-- ===== src/Cmd.antt =====
-- src/cmd.rs: running a command of the node, as far as it is not the system's.
pub mod Capped
pub mod Wait
pub mod Tests
use pve_compose.Base.{
  ◌≡◌, ap, subst, Bool-cases, inl, inr, ok-injective, ℕ, ◌+◌, ◌*◌, ◌^◌, ◌<◌, Bool, true, false,
  ◌||◌, not, Option, none, some, List, [], ◌∷◌, ◌++◌, Text, codes, text_eq, is_empty, contains_char,
  trim, split, length, ltb, ◌==◌, if◌then◌else◌, Result, ok, err, ◌>>=◌, map_err,
}

abbrev pub max_output : ℕ
max_output = 4 * 1024 * 1024

abbrev pub stderr_cap : ℕ
stderr_cap = 64 * 1024

-- The exit code, or -1 for a process that a signal ended.
pub data Code : Type 0 where
  exit : ℕ → Code
  minus_one : Code

pub record Output : Type 0 where
  pub status : Code
  pub stdout : Text
  pub stderr : Text

abbrev quoted : Text → Text
quoted a = if contains_char b' ' a || is_empty a then codes "'" ++ (a ++ codes "'") else a

-- A command line for a message.
unfoldable pub render : Text → List Text → Text
render program [] = program
render program (a ∷ args) = render (program ++ (codes " " ++ quoted a)) args

-- `capped`: the chunks that the reads give, up to the end or to an error; a chunk that passes the
-- cap is dropped and raises the flag.
pub capped : ℕ → (buf : List ℕ) → (chunks : List (List ℕ)) → List ℕ × Bool
capped cap buf [] = (buf, false)
capped cap buf (chunk ∷ chunks) =
    let rest = capped cap (buf ++ chunk) chunks in
    if ltb cap (length buf + length chunk) then (buf, true) else rest

pub data CmdError : Type 0 where
  cannot_run : (program : Text) → CmdError
  wait_failed : CmdError
  too_much : (what : Text) → CmdError
  no_answer : (what : Text) → CmdError
  failed : (line : Text) (status : Code) (stderr : Text) → CmdError
  not_json : (line : Text) → CmdError

abbrev pub is_success : Code → Bool
is_success (exit n) = n == 0
is_success minus_one = false

-- `run_within`, for what `run_status_within` gives: a non-zero exit is an error.
unfoldable pub run_within : Text → List Text → Result CmdError Output → Result CmdError Output
run_within program args (err e) = err e
run_within program args (ok out) =
    if is_success out.status
    then ok out
    else err (failed (render program args) out.status (trim out.stderr))

pub run_within-eq-ok :
    (program : Text) (args : List Text) (r : Result CmdError Output) {out : Output}
    → run_within program args r ≡ ok out
    → (r ≡ ok out) × (is_success out.status ≡ true)
unfolding run_within
run_within-eq-ok program args (err e) h = cc
run_within-eq-ok program args (ok o) {out} h = elim (Bool-cases (is_success o.status)) [
  | inl good ↦
      let same = ok-injective (rw good at h) in
      (ap (λ x. ok x) same, subst (λ x. is_success x.status ≡ true) same good)
  | inr bad ↦ absurd (cc (rw bad at h))
]

-- `finish`
pub finish : Text → List Text → Code → Result CmdError (Unit {0})
finish program args status =
    if is_success status then ok tt else err (failed (render program args) status [])

-- The arguments of `pvesh_get`.
pub pvesh_get_args : Text → List Text → List Text
pvesh_get_args path args =
    codes "get" ∷ path ∷ (args ++ codes "--output-format" ∷ codes "json" ∷ [])

-- `json`, with serde's reader.
parsed : {J : Type 0} → Text → Option J → Result CmdError J
parsed line none = err (not_json line)
parsed line (some j) = ok j

pub json :
    {J : Type 0}
    → (from_str : Text → Option J) → Text
    → List Text
    → Result CmdError Output
    → Result CmdError J
json from_str program args out = do
  o ← run_within program args out
  parsed (render program args) (from_str o.stdout)

abbrev first_or : Text → List Text → Text
first_or default [] = default
first_or default (p ∷ ps) = p

or_hostname : Option Text → Option Text
or_hostname none = none
or_hostname (some out) =
    let h = trim out in
    let short = first_or h (split b'.' h) in if is_empty short then none else some short

-- `nodename`: the last part of what /etc/pve/local points to, or what `hostname` prints up to the
-- first dot; `none` is the error.
pub nodename : (link_name : Option Text) → (hostname : Option Text) → Option Text
nodename none hostname = or_hostname hostname
nodename (some name) hostname = if is_empty name then or_hostname hostname else some name
