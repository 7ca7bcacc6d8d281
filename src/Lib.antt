-- ===== src/Lib.antt =====
-- pve-compose: a model of the program that runs compose documents in Proxmox VE containers, and
-- theorems on it.
--
-- The program reads a guest's document, works out its managed volumes and what may be bound or
-- created for them, plans the changes of the container and runs them, and then writes the compose
-- file into the guest and brings the stack up. The files follow those parts:
--
--   Size, Size/Gib       src/size.rs: `Size`, its texts for people and for pct, and `from_str`
--   Config, Layout       src/config.rs and the paths of src/lib.rs and src/stack.rs
--   Config/File          src/config.rs: `load_from`, `save_to` and `update`
--   Doc, Doc/Flags,      src/doc.rs: the document, `flag_of`, `parse`, project names
--     Doc/Project
--   Spec/Yaml            `serde_yaml_ng::Value`, as far as the program takes it apart
--   Spec/Bounds          src/spec.rs: the checks of names, owners, paths, storages and sizes
--   Spec/Volumes         src/spec.rs: `volumes`
--   Spec/Render          src/spec.rs: `render` up to the printing of the YAML
--   Spec/Render/Pieces   a text of a document as literals and variables
--   Pct/Mount, Pct/Guest src/pct.rs: mount lines and the config of a container
--   Pct/Ran, Pct/Files   src/pct.rs: `read_file` and `write_file` with the calls that they make
--   Pct/Listing          src/pct.rs: `list`, `storages` and `owner_node`
--   Pct/Ready            src/pct.rs: `wait_ready`
--   Plan/Build           src/plan.rs: `build`
--   Plan/Execute         src/plan.rs: `execute`, as the calls of pct that it makes
--   Plan/Settled         src/plan.rs: `build` behind a run of `execute`, with what PVE documents of
--                        the calls (`Plan/Execute/Documented`)
--   Verbs,               src/main.rs, src/ops/apply.rs, src/ops/upgrade.rs, src/ops/new.rs and
--     Verbs/Dispatch     src/ops/daemon.rs: the verbs as calls under the guest's lock, and the
--                        `match` on the command
--   Stack, Stack/Ps      src/stack.rs: quoting, scripts, facts and the reading of `ps`
--   Ops, Ops/Selector    src/ops/mod.rs and `read` of src/doc.rs
--   Apply/Locked,        src/ops/apply.rs: `apply_locked`, and `pct_apply_guest` with the calls of
--     Apply/Wrapper      pct that it makes
--   Apply/Docker         src/ops/apply.rs: `docker_apply_guest`, as the calls that it makes
--   Daemon, Daemon/Poll  src/ops/daemon.rs: a pass over the guests of a node, a round of the loop
--   Ops/New              src/ops/new.rs: what `new` settles before it touches anything, and the wrapper
--   Ops/Template         src/ops/template.rs: which template is taken
--   Ops/Status           src/ops/status.rs: the rows of `status`
--   Ops/ConfigCmd        src/ops/configcmd.rs: `set`, `unset` and `show`
--   Cmd, Cmd/Wait        src/cmd.rs: the loops around a child process, exit codes, caps
--   Cli                  src/main.rs: the commands, the guest each is about and where it runs
--   Lock, Prompt         src/lock.rs and src/prompt.rs: the loops of `take` and of `choose`
--   Apply/Vars           src/ops/apply.rs: `vars` and `render`
--   Diff, Diff/Report    src/ops/diff.rs: `line_diff`, and what is printed of a plan and a file
--
-- Files below these, named for what they prove, hold the proofs, and the Tests files hold runs at
-- concrete data. Base holds lists, text, decimals, association lists and results.
--
-- Text is a list of code points. An error is a constructor for each `bail!`, with what its message
-- names; so is a note of a plan. A `BTreeMap` is an association list sorted by key, and a vector a
-- list. What is not in this repository is a parameter: serde's readers of `Doc` and `XPve`
-- (`from_str`, `from_value`), floats (the record `Float`, whose laws at exact numbers are those of
-- `IsExact`), and whether a call of pct or of the guest succeeds (`runs`). YAML numbers and JSON
-- values are given by what the program asks of them.
--
-- Sizes are u64 in the program and unbounded here; the sum of a size and one MiB does not wrap
-- below 2 ^ 64 - 2 ^ 20 bytes, and the ceiling of a size is saturated as in the code. `to_pct_gib`
-- stands for sizes below 2 ^ 53 bytes. The loop that takes an index has fuel for every index up to
-- the largest one in use, behind which it ends, and the loop of the diff for every line of both
-- files; theorems say that this is enough.
--
-- A loop that waits sees a sequence of rounds, each with what the system tells it and with the
-- clock, and has fuel; where the clock advances by the sleep of a round, a round for each sleep in
-- the time limit, and one more, is enough. A run of `pct` on a guest's files passes through states
-- of the node (`Ran`), of which the record `Documented` says what the calls are documented to do;
-- the texts there are the bytes of the file, of which the program keeps the lossy text, that of
-- `String::from_utf8_lossy`, a part of the record. The verbs that ask get the lines that the user types.
--
-- What `pct set` and `pct resize` do to a container's config is a function `after` on configs, of
-- which the record `Documented` of Plan/Execute says what PVE documents: an option takes its text, a
-- free `mpN` gets a mount, a resize leaves the size asked for up to one MiB. Disk sizes there are
-- below 2 ^ 53 bytes. Processes that run verbs at the same time are one sequence of their calls, in
-- which a lock is got when nobody has it (`IsGranted`).
--
-- Not modelled: spawning and killing processes, the terminal and the text of a YAML file, which
-- are the system's and serde's; clap's parser; src/notify.rs, which sends one datagram; and
-- src/ops/provision.rs, whose work is one script for the guest's shell.
pub mod Base
pub mod Size
pub mod Config
pub mod Layout
pub mod Spec
pub mod Doc
pub mod Pct
pub mod Plan
pub mod Diff
pub mod Stack
pub mod Ops
pub mod Apply
pub mod Daemon
pub mod Cmd
pub mod Prompt
pub mod Cli
pub mod Verbs
pub mod Lock
