-- ===== src/Pct/Files/Documented.antt =====
-- What src/pct.rs relies on from `pct`, the guest's shell and the host's temporary files.
use pve_compose.Base.{
  ℕ, ◌+◌, none, ◌≡◌, ◌≢◌, ◌⊎◌, true, Option, some, ok, Text, All, Lacks, length, ◌≤◌,
}
use pve_compose.Cmd.{Output, exit, is_success}
use pve_compose.Pct.Ran.{seen}
use pve_compose.Pct.Files.{
  Node, take, max_read, read_script, exec_args, push_args, mkdir_script, rm_script, mv_script,
}

-- A view of the node's states, and the calls' documented effects on it. A text between single quotes
-- is one word to the shell only if it holds no single quote, so the laws on scripts ask for that.
pub record Documented (node : Node) (vmid : ℕ) : Type 0 where
  -- What a file of the guest holds, and what a temporary file of the host holds.
  pub file : node.S → Text → Option Text
  pub copy : node.S → Text → Option Text
  -- A host file is created with its content and touches no file of the guest.
  pub create_keeps :
      (content p : Text) (s : node.S)
      → All (λ s'. file s' p ≡ file s p) (seen (node.create_copy content s))
  pub create_holds :
      (content h : Text) (s : node.S)
      → (node.create_copy content s).result ≡ ok h
      → copy (node.create_copy content s).now h ≡ some content
  pub drop_keeps : (h p : Text) (s : node.S) → file (node.drop_copy h s) p ≡ file s p
  -- `mkdir -p` changes no file.
  pub mkdir_keeps :
      (dir p : Text) (s : node.S)
      → Lacks b'\'' dir
      → All (λ s'. file s' p ≡ file s p) (seen (node.run (exec_args vmid (mkdir_script dir)) s))
  pub mkdir_copies :
      (dir h : Text) (s : node.S)
      → Lacks b'\'' dir
      → copy (node.run (exec_args vmid (mkdir_script dir)) s).now h ≡ copy s h
  -- `pct push` writes into its target, bit by bit, and no other file; a push that succeeds has written
  -- the whole.
  pub push_keeps :
      (h staged perms p : Text) (s : node.S)
      → p ≢ staged
      → All (λ s'. file s' p ≡ file s p) (seen (node.run (push_args vmid h staged perms) s))
  pub push_writes :
      (h staged perms : Text) (s : node.S) (out : Output)
      → (node.run (push_args vmid h staged perms) s).result ≡ ok out
      → is_success out.status ≡ true
      → file (node.run (push_args vmid h staged perms) s).now staged ≡ copy s h
  -- `rm -f` removes the one file.
  pub rm_keeps :
      (staged p : Text) (s : node.S)
      → Lacks b'\'' staged
      → p ≢ staged
      → All (λ s'. file s' p ≡ file s p) (seen (node.run (exec_args vmid (rm_script staged)) s))
  -- `mv -f` in one directory is a rename, which happens or not, and has happened if it succeeds.
  pub mv_renames :
      (staged path : Text) (s : node.S)
      → Lacks b'\'' staged
      → Lacks b'\'' path
      → All
          (λ s'. (file s' path ≡ file s path) ⊎ (file s' path ≡ file s staged))
          (seen (node.run (exec_args vmid (mv_script staged path)) s))
  pub mv_moves :
      (staged path : Text) (s : node.S) (out : Output)
      → Lacks b'\'' staged
      → Lacks b'\'' path
      → (node.run (exec_args vmid (mv_script staged path)) s).result ≡ ok out
      → is_success out.status ≡ true
      → file (node.run (exec_args vmid (mv_script staged path)) s).now path ≡ file s staged
  -- `String::from_utf8_lossy`, on bytes: what is not UTF-8 is replaced by a mark that is no shorter.
  pub from_utf8_lossy : Text → Text
  pub lossy_grows : (b : Text) → length b ≤ length (from_utf8_lossy b)
  -- The read ends with 3 if there is no file, and with 0 if it has printed what `head` prints of it,
  -- of which the program keeps the lossy text.
  pub reads :
      (path : Text) (s : node.S) (out : Output)
      → Lacks b'\'' path
      → (node.run (exec_args vmid (read_script path)) s).result ≡ ok out
      → (out.status ≡ exit 0
          → (c : Text) × (file s path ≡ some c)
            × (out.stdout ≡ from_utf8_lossy (take (max_read + 1) c)))
        × (out.status ≡ exit 3 → file s path ≡ none)
