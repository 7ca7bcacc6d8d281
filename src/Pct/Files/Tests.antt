-- ===== src/Pct/Files/Tests.antt =====
-- A node with a guest whose files are a function, and writes and reads on it.
use native.Mathlib.Omega.{arith}
use pve_compose.Base.{
  ℕ, ◌+◌, ◌≡◌, ◌≢◌, refl, sym, ap, ◌∙◌, ◌⊎◌, inl, inr, Bool, true, false, Option, none, some, List,
  [], ◌∷◌, ◌++◌, Result, ok, err, Text, codes, text_eq, text_eq_ne, text_eq_refl, ok-injective,
  subst, ltb, length, strip_prefix, split_once, split_once-append, Lacks, All, if◌then◌else◌,
}
use pve_compose.Cmd.{Output, Code, exit, CmdError}
use pve_compose.Pct.Ran.{Ran, seen}
use pve_compose.Pct.Files.{
  not_written, above_cap, Node, take, max_read, exec_args, push_args, mkdir_script, rm_script,
  mv_script, read_script, write_file, read_file,
}
use pve_compose.Pct.Files.Documented.{Documented}
use pve_compose.Pct.Files.Atomic.{IsOldOrNew, write_file_atomic}
use pve_compose.Pct.Files.Exact.{read_file_whole}

record Disk : Type 0 where
  guest : Text → Option Text
  host : Text → Option Text

put : (Text → Option Text) → Text → Option Text → Text → Option Text
put f p v q = if text_eq q p then v else f q

put_same : (f : Text → Option Text) (p : Text) (v : Option Text) → put f p v p ≡ v
unfolding put
put_same f p v = rw (text_eq_refl p) refl

put_other : (f : Text → Option Text) (p q : Text) (v : Option Text) → q ≢ p → put f p v q ≡ f q
unfolding put
put_other f p q v other = rw (text_eq_ne q p other) refl

abbrev exits : ℕ → Text → Output
exits n out = record { status = exit n; stdout = out; stderr = [] }

abbrev done : Disk → Output → Ran Disk CmdError Output
done s out = record { passed = []; now = s; result = ok out }

rename_to : Disk → Text → Option (Text × Text) → Disk
rename_to s a none = s
rename_to s a (some (b, _)) = record s { guest = put (put s.guest a none) b (s.guest a) }

move_words : Disk → Option (Text × Text) → Disk
unfolding rename_to
move_words s none = s
move_words s (some (a, _ ∷ _ ∷ r)) = rename_to s a (split_once b'\'' r)
move_words s (some (a, r)) = s

remove_word : Disk → Option (Text × Text) → Disk
remove_word s none = s
remove_word s (some (a, _)) = record s { guest = put s.guest a none }

printed : Option Text → Output
printed none = exits 3 []
printed (some c) = exits 0 (take (max_read + 1) c)

read_word : Disk → Option (Text × Text) → Output
unfolding printed
read_word s none = exits 2 []
read_word s (some (p, _)) = printed (s.guest p)

-- The shell of the guest, for the four scripts.
shell : Disk → (mv rm read : Option Text) → Ran Disk CmdError Output
unfolding move_words remove_word read_word
shell s (some t) rm read = done (move_words s (split_once b'\'' t)) (exits 0 [])
shell s none (some t) read = done (remove_word s (split_once b'\'' t)) (exits 0 [])
shell s none none (some t) = done s (read_word s (split_once b'\'' t))
shell s none none none = done s (exits 0 [])

-- A push is seen with an empty file first.
pct : List Text → Disk → Ran Disk CmdError Output
unfolding shell
pct (verb ∷ vm ∷ a ∷ b ∷ c ∷ script ∷ []) s =
    shell s (strip_prefix script (codes "mv -f '")) (strip_prefix script (codes "rm -f '"))
      (strip_prefix script (codes "if [ -e '"))
pct (verb ∷ vm ∷ h ∷ staged ∷ args) s = record {
  passed = record s { guest = put s.guest staged (some []) } ∷ [];
  now = record s { guest = put s.guest staged (s.host h) };
  result = ok (exits 0 []);
}
pct args s = done s (exits 0 [])

abbrev node : Node
node = record {
  S = Disk;
  run = pct;
  create_copy = λ content s. record {
    passed = [];
    now = record s { host = put s.host (codes "/tmp/push") (some content) };
    result = ok (codes "/tmp/push");
  };
  drop_copy = λ h s. record s { host = put s.host h none };
}

mkdir_run : (dir : Text) (s : Disk) → pct (exec_args 105 (mkdir_script dir)) s ≡ done s (exits 0 [])
unfolding pct strip_prefix
mkdir_run dir s = refl

rm_run :
    (staged : Text) (s : Disk)
    → Lacks b'\'' staged
    → pct (exec_args 105 (rm_script staged)) s
      ≡ done (record s { guest = put s.guest staged none }) (exits 0 [])
unfolding pct strip_prefix
rm_run staged s h = rw (split_once-append b'\'' staged [] h) refl

mv_run :
    (staged path : Text) (s : Disk)
    → Lacks b'\'' staged
    → Lacks b'\'' path
    → pct (exec_args 105 (mv_script staged path)) s
      ≡ done (record s { guest = put (put s.guest staged none) path (s.guest staged) }) (exits 0 [])
unfolding pct strip_prefix
mv_run staged path s h k =
    rw (split_once-append b'\'' staged (codes " '" ++ (path ++ codes "'")) h)
      (rw (split_once-append b'\'' path [] k) refl)

read_run :
    (path : Text) (s : Disk)
    → Lacks b'\'' path
    → pct (exec_args 105 (read_script path)) s ≡ done s (printed (s.guest path))
unfolding pct strip_prefix
read_run path s h = rw (split_once-append b'\'' path _ h) refl

same_output :
    (r : Ran Disk CmdError Output) (s : Disk) (o out : Output)
    → r ≡ done s o
    → r.result ≡ ok out
    → o ≡ out
same_output r s o out ran e = ok-injective (rw ran at e)

printed_reads :
    (f : Option Text) (out : Output)
    → printed f ≡ out
    → (out.status ≡ exit 0 → (c : Text) × (f ≡ some c) × (out.stdout ≡ take (max_read + 1) c))
      × (out.status ≡ exit 3 → f ≡ none)
unfolding printed
printed_reads none out e = ((λ z. absurd (three_zero (ap (λ o. o.status) e ∙ z))), λ z. refl)
  where
    three_zero : exit 3 ≡ exit 0 → ⊥
    three_zero h = cc h
printed_reads (some c) out e = (
  (λ z. (c, refl, ap (λ o. o.stdout) (sym e))),
  λ z. absurd (zero_three (ap (λ o. o.status) e ∙ z)),
)
  where
    zero_three : exit 0 ≡ exit 3 → ⊥
    zero_three h = cc h

push_run_keeps :
    (h staged perms p : Text) (s : Disk)
    → p ≢ staged
    → All (λ s'. s'.guest p ≡ s.guest p) (seen (pct (push_args 105 h staged perms) s))
unfolding pct
push_run_keeps h staged perms p s other =
    (put_other s.guest staged p (some []) other, (put_other s.guest staged p (s.host h) other, tt))

push_run_writes :
    (h staged perms : Text) (s : Disk)
    → (pct (push_args 105 h staged perms) s).now.guest staged ≡ s.host h
unfolding pct
push_run_writes h staged perms s = put_same s.guest staged (s.host h)

node-Documented : Documented node 105
node-Documented = record {
  file = λ s p. s.guest p;
  copy = λ s h. s.host h;
  create_keeps = λ content p s. (refl, tt);
  create_holds = λ content h s e.
      subst (λ q. put s.host (codes "/tmp/push") (some content) q ≡ some content) (ok-injective e)
        (put_same s.host (codes "/tmp/push") (some content));
  drop_keeps = λ h p s. refl;
  mkdir_keeps = λ dir p s h. rw (mkdir_run dir s) (refl, tt);
  mkdir_copies = λ dir h s k. rw (mkdir_run dir s) refl;
  push_keeps = λ h staged perms p s other. push_run_keeps h staged perms p s other;
  push_writes = λ h staged perms s out e good. push_run_writes h staged perms s;
  rm_keeps =
      λ staged p s h other. rw (rm_run staged s h) (put_other s.guest staged p none other, tt);
  mv_renames = λ staged path s h k.
      rw (mv_run staged path s h k)
        (inr (put_same (put s.guest staged none) path (s.guest staged)), tt);
  mv_moves = λ staged path s out h k e good.
      rw (mv_run staged path s h k) (put_same (put s.guest staged none) path (s.guest staged));
  from_utf8_lossy = λ b. b;
  lossy_grows = λ b. ground arith;
  reads = λ path s out h e.
      printed_reads (s.guest path) out (same_output _ s _ out (read_run path s h) e);
}

abbrev facts_path : Text
facts_path = codes "/opt/stack/.pve-compose"

abbrev facts : Text
facts = codes "digest=1"

abbrev empty_disk : Disk
empty_disk = record { guest = λ p. none; host = λ h. none }

-- The file goes through the sibling.
wrote :
    (write_file node 105 facts_path facts (codes "0644") empty_disk).now.guest facts_path
    ≡ some facts
unfolding write_file pve_compose.Base.rsplit_once strip_prefix split_once pct put
    pve_compose.Cmd.run_within pve_compose.Base.contains pve_compose.Base.text_dec
wrote = refl

refused :
    (write_file node 105 (codes "/opt/a'b") facts (codes "0644") empty_disk).result
    ≡ err (not_written (codes "/opt/a'b"))
unfolding write_file pve_compose.Base.rsplit_once strip_prefix
refused = refl

write_file_atomic_example :
    All
      (IsOldOrNew node 105 node-Documented facts_path facts (codes "0644") empty_disk)
      (seen (write_file node 105 facts_path facts (codes "0644") empty_disk))
write_file_atomic_example =
    write_file_atomic node 105 node-Documented facts_path facts (codes "0644") empty_disk

abbrev facts_disk : Disk
facts_disk = record { guest = λ p. some facts; host = λ h. none }

read_file_whole_example :
    (read_file node 105 facts_path facts_disk).result
    ≡ (if ltb max_read (length facts) then err (above_cap facts_path) else ok (some facts))
unfolding printed node-Documented
read_file_whole_example =
    read_file_whole node 105 node-Documented facts_path facts_disk (omega arith) facts
      (exits 0 facts) refl refl (ap (λ r. r.result) (read_run facts_path facts_disk (omega arith)))
      refl
