-- ===== src/Pct/Files/Atomic.antt =====
-- What a reader may find in a file that `write_file` of src/pct.rs writes.
use pve_compose.Base.{
  ℕ, ◌≡◌, refl, sym, subst, ◌∙◌, ◌⊎◌, inl, inr, true, some, List, ok, map_err, map_err-eq-ok,
  ok-injective, Result-cases, Option-cases, Bool-cases, Text, codes, All, All-map, Lacks,
}
use pve_compose.Cmd.{Output, is_success, run_within, run_within-eq-ok}
use pve_compose.Pct.Ran.{Ran, seen, stays, with_result, Runs, Runs-and_then, All-behind, All-now}
use pve_compose.Pct.Files.{
  Node, FileError, no_copy, exec_args, push_args, mkdir_script, rm_script, mv_script, staged_name,
  written_path, exec_status, exec, must_succeed, push, rename, push_over, replace, scoped,
  write_file,
}
use pve_compose.Pct.Files.Documented.{Documented}
use pve_compose.Pct.Files.Writable.{
  IsWritable, parts_bare, staged_bare, staged_other, written_path-IsWritable,
}

module _ (node : Node) (vmid : ℕ) (P : node.S → Type 0) where
  -- A script that succeeds has exited with 0.
  Runs-exec :
      (Q : Output → node.S → Type 0) (script : Text) (s : node.S)
      → All P (seen (node.run (exec_args vmid script) s))
      → ((out : Output)
          → (node.run (exec_args vmid script) s).result ≡ ok out
          → is_success out.status ≡ true
          → Q out (node.run (exec_args vmid script) s).now)
      → Runs P Q (exec node vmid script s)
  unfolding exec exec_status
  Runs-exec Q script s h q =
      Runs-and_then P Q (exec_status node vmid script s)
        (λ out s'. stays s' (must_succeed node vmid script out)) h
        λ out e. (
          (All-now P (node.run (exec_args vmid script) s) h, tt),
          λ a there.
              let (good, same) = succeeded script out a there in
              let Q-out = q out (map_err-eq-ok _ _ e) good in
              subst (λ o. Q o (node.run (exec_args vmid script) s).now) same Q-out,
        )
    where
      succeeded :
          (script : Text) (out a : Output)
          → must_succeed node vmid script out ≡ ok a
          → (is_success out.status ≡ true) × (out ≡ a)
      succeeded script out a h = elim (Bool-cases (is_success out.status)) [
        | inl good ↦ (good, ok-injective (rw good at h))
        | inr bad ↦ absurd (cc (rw bad at h))
      ]

  Runs-push :
      (Q : Output → node.S → Type 0) (path staged host perms : Text) (s : node.S)
      → All P (seen (node.run (push_args vmid host staged perms) s))
      → All P (
          seen (
            node.run
              (exec_args vmid (rm_script staged))
              (node.run (push_args vmid host staged perms) s).now))
      → ((out : Output)
          → (node.run (push_args vmid host staged perms) s).result ≡ ok out
          → is_success out.status ≡ true
          → Q out (node.run (push_args vmid host staged perms) s).now)
      → Runs P Q (push node vmid path staged host perms s)
  unfolding push exec_status
  Runs-push Q path staged host perms s h removed q =
      let args = push_args vmid host staged perms in
      let r = node.run args s in
      elim (Result-cases (run_within (codes "pct") args r.result)) [
        | inl (e, bad) ↦ rw bad (
          All-behind P r (exec_status node vmid (rm_script staged) r.now) h removed,
          λ a absent. cc absent,
        )
        | inr (out, good) ↦ rw good (
          h,
          λ a there.
              subst (λ o. Q o r.now) (ok-injective there)
                (q out (run_within-eq-ok _ args r.result good).0
                  (run_within-eq-ok _ args r.result good).1),
        )
      ]

module _ (node : Node) (vmid : ℕ) (doc : Documented node vmid) (path content perms : Text)
    (s : node.S) where
  -- The file is as it was, or it is the new one.
  abbrev pub IsOldOrNew : node.S → Type 0
  IsOldOrNew s' = (doc.file s' path ≡ doc.file s path) ⊎ (doc.file s' path ≡ some content)

  abbrev IsNew : {A : Type 0} → A → node.S → Type 0
  IsNew _ s' = doc.file s' path ≡ some content

  still_old :
      (s₁ : node.S) (xs : List node.S)
      → doc.file s₁ path ≡ doc.file s path
      → All (λ s'. doc.file s' path ≡ doc.file s₁ path) xs
      → All IsOldOrNew xs
  still_old s₁ xs old h = All-map (λ s' e. inl (e ∙ old)) xs h

  Runs-rename :
      (staged : Text) (s₂ : node.S)
      → Lacks b'\'' staged
      → Lacks b'\'' path
      → doc.file s₂ path ≡ doc.file s path
      → doc.file s₂ staged ≡ some content
      → Runs IsOldOrNew IsNew (rename node vmid path staged s₂)
  unfolding rename
  Runs-rename staged s₂ sb pb old there =
      let mv =
        Runs-exec node vmid IsOldOrNew IsNew (mv_script staged path) s₂
          (All-map
            (λ s' e. elim e [ inl same ↦ inl (same ∙ old) | inr moved ↦ inr (moved ∙ there) ]) _
            (doc.mv_renames staged path s₂ sb pb))
          (λ out e good. doc.mv_moves staged path s₂ out sb pb e good ∙ there) in
      Runs-and_then IsOldOrNew IsNew (exec node vmid (mv_script staged path) s₂)
        (λ _ s'. stays s' (ok tt)) mv.0 (λ out e. ((inr (mv.1 out e), tt), λ _ _. mv.1 out e))

  Runs-push_over :
      (dir name host : Text) (s₁ : node.S)
      → IsWritable path dir name
      → doc.file s₁ path ≡ doc.file s path
      → doc.copy s₁ host ≡ some content
      → Runs IsOldOrNew IsNew (push_over node vmid path (staged_name dir name) host perms s₁)
  unfolding push_over
  Runs-push_over dir name host s₁ w old there =
      let staged = staged_name dir name in
      let r = node.run (push_args vmid host staged perms) s₁ in
      let keeps = doc.push_keeps host staged perms path s₁ (staged_other w) in
      let old₂ = All-now (λ s'. doc.file s' path ≡ doc.file s₁ path) r keeps ∙ old in
      let pushed =
        Runs-push node vmid IsOldOrNew
          (λ _ s'. (doc.file s' path ≡ doc.file s path) × (doc.file s' staged ≡ some content)) path
          staged host perms s₁ (still_old s₁ (seen r) old keeps)
          (still_old r.now _ old₂ (doc.rm_keeps staged path r.now (staged_bare w) (staged_other w)))
          (λ out e good. (old₂, doc.push_writes host staged perms s₁ out e good ∙ there)) in
      Runs-and_then IsOldOrNew IsNew (push node vmid path staged host perms s₁)
        (λ _ s'. rename node vmid path staged s') pushed.0
        (λ out e. Runs-rename staged _ (staged_bare w) w.bare (pushed.1 out e).0 (pushed.1 out e).1)

  Runs-replace :
      (dir name host : Text) (s₀ : node.S)
      → IsWritable path dir name
      → doc.file s₀ path ≡ doc.file s path
      → doc.copy s₀ host ≡ some content
      → Runs IsOldOrNew IsNew (replace node vmid path dir (staged_name dir name) host perms s₀)
  unfolding replace
  Runs-replace dir name host s₀ w old there =
      let r = node.run (exec_args vmid (mkdir_script dir)) s₀ in
      let keeps = doc.mkdir_keeps dir path s₀ (parts_bare w).0 in
      let made =
        Runs-exec node vmid IsOldOrNew
          (λ _ s'. (doc.file s' path ≡ doc.file s path) × (doc.copy s' host ≡ some content))
          (mkdir_script dir) s₀ (still_old s₀ (seen r) old keeps)
          (λ out e good. (
            All-now (λ s'. doc.file s' path ≡ doc.file s₀ path) r keeps ∙ old,
            doc.mkdir_copies dir host s₀ (parts_bare w).0 ∙ there,
          )) in
      Runs-and_then IsOldOrNew IsNew (exec node vmid (mkdir_script dir) s₀)
        (λ _ s'. push_over node vmid path (staged_name dir name) host perms s') made.0
        (λ out e. Runs-push_over dir name host _ w (made.1 out e).0 (made.1 out e).1)

  Runs-scoped :
      (host : Text) (r : Ran node.S FileError (Unit {0}))
      → Runs IsOldOrNew IsNew r
      → Runs IsOldOrNew IsNew (scoped node vmid host r)
  Runs-scoped host r (h, q) = (
    All-behind IsOldOrNew r (stays (node.drop_copy host r.now) r.result) h (dropped, tt),
    λ u e. doc.drop_keeps host path r.now ∙ q u e,
  )
    where
      dropped : IsOldOrNew (node.drop_copy host r.now)
      dropped =
          subst (λ f. (f ≡ doc.file s path) ⊎ (f ≡ some content))
            (sym (doc.drop_keeps host path r.now)) (All-now IsOldOrNew r h)

  Runs-write_file : Runs IsOldOrNew IsNew (write_file node vmid path content perms s)
  unfolding write_file
  Runs-write_file = elim (Option-cases (written_path path)) [
    | inl refused ↦ rw refused ((inl refl, tt), λ u absent. cc absent)
    | inr ((dir, name), e) ↦ rw e (
        let copy = node.create_copy content s in
        Runs-and_then IsOldOrNew IsNew (with_result copy (map_err no_copy copy.result))
          (λ host s'.
            scoped node vmid host (replace node vmid path dir (staged_name dir name) host perms s'))
          (still_old s (seen copy) refl (doc.create_keeps content path s))
          (λ host there. Runs-scoped host _ (
            Runs-replace dir name host copy.now (written_path-IsWritable path dir name e)
              (All-now (λ s'. doc.file s' path ≡ doc.file s path) copy
                (doc.create_keeps content path s))
              (doc.create_holds content host s (map_err-eq-ok no_copy copy.result there)))))
  ]

  -- In every state of the node that a write passes through, whatever fails and wherever the program is
  -- stopped, the file holds what it held before or the whole of the new content.
  pub write_file_atomic : All IsOldOrNew (seen (write_file node vmid path content perms s))
  write_file_atomic = Runs-write_file.0

  -- After a write that succeeds, the file holds the new content.
  pub write_file_writes :
      (u : Unit {0})
      → (write_file node vmid path content perms s).result ≡ ok u
      → doc.file (write_file node vmid path content perms s).now path ≡ some content
  write_file_writes = Runs-write_file.1
