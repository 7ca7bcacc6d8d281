-- ===== src/Cmd/Capped.antt =====
-- What `capped` of src/cmd.rs keeps of a stream.
use native.Mathlib.Omega.{arith}
use pve_compose.Base.{
  ℕ, ◌+◌, ◌≤◌, ◌<◌, ◌≡◌, refl, sym, Bool, false, List, [], ◌∷◌, ◌++◌, append_assoc, append-nil,
  length, length-append, ltb, Bool-cases, inl, inr, is_empty, not,
}
use pve_compose.Cmd.{capped}

abbrev pub concat : List (List ℕ) → List ℕ
concat [] = []
concat (c ∷ cs) = c ++ concat cs

-- The kept part begins the stream and is within the cap; the flag is up exactly if the stream passes
-- the cap, and exactly if a rest is missing.
pub record KeepsWithin (cap : ℕ) (stream : List ℕ) (result : List ℕ × Bool) : Type 0 where
  pub rest : List ℕ
  pub begins : stream ≡ result.0 ++ rest
  pub within : length result.0 ≤ cap
  pub flag : result.1 ≡ ltb cap (length stream)
  pub missing : is_empty rest ≡ not result.1

capped-KeepsWithin :
    (cap : ℕ) (buf : List ℕ) (chunks : List (List ℕ))
    → length buf ≤ cap
    → KeepsWithin cap (buf ++ concat chunks) (capped cap buf chunks)
unfolding capped
capped-KeepsWithin cap buf [] h = rw (append-nil buf) (record {
  rest = [];
  begins = sym (append-nil buf);
  within = h;
  flag = ground arith;
  missing = refl;
})
capped-KeepsWithin cap buf (c ∷ cs) h = elim (Bool-cases (ltb cap (length buf + length c))) [
  | inl over ↦ rw over (record {
    rest = c ++ concat cs;
    begins = refl;
    within = h;
    flag = ground (arith, length-append buf (c ++ concat cs), length-append c (concat cs));
    missing = not_empty c (concat cs) (ground arith);
  })
  | inr fits ↦
      rw (fits, ← append_assoc buf c (concat cs))
        (capped-KeepsWithin cap (buf ++ c) cs (ground (arith, length-append buf c)))
]
  where
    not_empty : (c d : List ℕ) → 0 < length c → is_empty (c ++ d) ≡ false
    not_empty [] d h = absurd (omega (arith, h))
    not_empty (x ∷ c) d h = refl

-- However a stream is cut into chunks, a reader keeps a beginning of it that is within the cap, and
-- raises the flag exactly if the stream passes the cap, which is exactly if the rest is not empty.
pub capped_lem :
    (cap : ℕ) (chunks : List (List ℕ)) → KeepsWithin cap (concat chunks) (capped cap [] chunks)
capped_lem cap chunks = capped-KeepsWithin cap [] chunks (omega arith)
