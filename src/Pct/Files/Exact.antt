-- ===== src/Pct/Files/Exact.antt =====
-- What `read_file` of src/pct.rs gives for a file of the guest.
use native.Mathlib.Omega.{arith}
use pve_compose.Base.{
  ℕ, if◌then◌else◌, false, Result, err, zero, suc, ◌≤◌, ◌≡◌, refl, sym, ap, ◌∙◌, inl, inr, true,
  Option, some, [], ◌∷◌, ok, Bool-cases, Text, Lacks, length, ltb,
}
use pve_compose.Cmd.{Output, exit}
use pve_compose.Pct.Files.{
  Node, FileError, above_cap, take, max_read, read_script, exec_args, exec_status, read_file,
}
use pve_compose.Pct.Files.Documented.{Documented}

-- One more than `n` is enough to tell that nothing is cut off.
take_all : (n : ℕ) (c : Text) → length (take (suc n) c) ≤ n → take (suc n) c ≡ c
take_all n [] h = refl
take_all zero (d ∷ c) h = absurd (omega (arith, h))
take_all (suc n) (d ∷ c) h = ap (λ t. d ∷ t) (take_all n c (omega (arith, h)))

not_over : (n l : ℕ) → ltb n l ≡ false → l ≤ n
not_over n l h = ground arith

over_take : (n : ℕ) (c : Text) → ltb n (length (take (suc n) c)) ≡ ltb n (length c)
over_take n [] = refl
over_take zero (d ∷ c) = ground arith
over_take (suc n) (d ∷ c) = ltb_suc n (length (take (suc n) c)) (length c) (over_take n c)
  where
    ltb_suc : (n a b : ℕ) → ltb n a ≡ ltb n b → ltb (suc n) (suc a) ≡ ltb (suc n) (suc b)
    ltb_suc n a b h = ground arith

module _ (node : Node) (vmid : ℕ) (doc : Documented node vmid) (path : Text) (s : node.S)
    (bare : Lacks b'\'' path) where
  -- The test on the lossy text of what `head` prints is one on the file.
  checked :
      (c : Text)
      → doc.from_utf8_lossy c ≡ c
      → let kept = doc.from_utf8_lossy (take (suc max_read) c) in
        Path
          (Result FileError (Option Text))
          (if ltb max_read (length kept) then err (above_cap path) else ok (some kept))
          (if ltb max_read (length c) then err (above_cap path) else ok (some c))
  checked c utf8 = elim (Bool-cases (ltb max_read (length c))) [
    | inl over ↦
        rw
          (
            over,
            grown max_read _ _ (over_take max_read c ∙ over)
                (doc.lossy_grows (take (suc max_read) c)),
          )
          refl
    | inr fits ↦
        rw (take_all max_read c (not_over max_read _ (over_take max_read c ∙ fits)), utf8, fits)
          refl
  ]
    where
      grown : (n a b : ℕ) → ltb n a ≡ true → a ≤ b → ltb n b ≡ true
      grown n a b h le = ground arith

  -- A read of a file of UTF-8 text whose call exits with 0 gives the whole of the file, or the error
  -- that it is above the cap, which is the one exactly for a file of more than `max_read` bytes.
  pub read_file_whole :
      (c : Text) (out : Output)
      → doc.file s path ≡ some c
      → doc.from_utf8_lossy c ≡ c
      → (node.run (exec_args vmid (read_script path)) s).result ≡ ok out
      → out.status ≡ exit 0
      → (read_file node vmid path s).result
        ≡ (if ltb max_read (length c) then err (above_cap path) else ok (some c))
  unfolding read_file exec_status
  read_file_whole c out there utf8 ran good =
      let (d, holds, printed) = (doc.reads path s out bare ran).0 good in
      let same = some_same (sym holds ∙ there) in rw ran (rw (good, printed, same) (checked c utf8))
    where
      some_same : {d e : Text} → Path (Option Text) (some d) (some e) → d ≡ e
      some_same h = cc h
