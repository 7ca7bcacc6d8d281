-- ===== src/Pct/Files/Writable.antt =====
-- The paths that `write_file` of src/pct.rs writes, and the sibling it stages at.
use native.Mathlib.Omega.{arith}
use pve_compose.Base.{
  ℕ, ◌≡◌, ◌≢◌, refl, ap, subst, ◌∙◌, inl, inr, Bool, true, false, if◌then◌else◌, none, some, [],
  ◌∷◌, ◌++◌, Option-cases, Bool-cases, Text, codes, All-append, All-append_left, All-append_right,
  Lacks, length, length-append, contains_char, rsplit_once, ◌==◌,
}
use pve_compose.Pct.Files.{staged_name, written_path}

rsplit_once_sound : (c : ℕ) (s p r : Text) → rsplit_once c s ≡ some (p, r) → s ≡ p ++ c ∷ r
unfolding rsplit_once
rsplit_once_sound c [] p r h = absurd (cc h)
rsplit_once_sound c (d ∷ s) p r h = elim (Option-cases (rsplit_once c s)) [
  | inl uncut ↦ elim (Bool-cases (d == c)) [
    | inl cut ↦ ground (arith, uncut)
    | inr on ↦ absurd (cc (rw (uncut, on) at h))
  ]
  | inr (pr, e) ↦ ground (arith, e, rsplit_once_sound c s pr.0 pr.1)
]

no_char : (c : ℕ) (t : Text) → contains_char c t ≡ false → Lacks c t
no_char c [] h = tt
no_char c (d ∷ t) h = (ground arith, no_char c t (ground arith))

-- What the guards of `write_file` leave.
pub record IsWritable (path dir name : Text) : Type 0 where
  pub cut : path ≡ dir ++ b'/' ∷ name
  pub bare : Lacks b'\'' path

kept : (b : Bool) (x y : Text × Text) → (if b then some x else none) ≡ some y → (b ≡ true) × (x ≡ y)
kept true x y h = (refl, cc h)
kept false x y h = absurd (cc h)

pub written_path-IsWritable :
    (path dir name : Text) → written_path path ≡ some (dir, name) → IsWritable path dir name
unfolding written_path
written_path-IsWritable path dir name h = elim (Option-cases (rsplit_once b'/' path)) [
  | inl uncut ↦ absurd (cc (rw uncut at h))
  | inr (dn, e) ↦
      let (guards, same) = kept _ dn (dir, name) (rw e at h) in
      record {
        cut = rsplit_once_sound b'/' path dir name (e ∙ ap (λ x. some x) same);
        bare = no_char b'\'' path (ground (arith, guards));
      }
]

module _ {path dir name : Text} (w : IsWritable path dir name) where
  pub parts_bare : Lacks b'\'' dir × Lacks b'\'' name
  parts_bare =
      let h = subst (Lacks b'\'') w.cut w.bare in
      (
        All-append_left (λ d. d ≢ b'\'') dir (b'/' ∷ name) h,
        (All-append_right (λ d. d ≢ b'\'') dir (b'/' ∷ name) h).1,
      )

  pub staged_bare : Lacks b'\'' (staged_name dir name)
  staged_bare =
      All-append (λ d. d ≢ b'\'') dir _ parts_bare.0
        (
          omega arith,
          (
            omega arith,
            All-append (λ d. d ≢ b'\'') name (codes ".pve-compose-tmp") parts_bare.1 (omega arith),
          ),
        )

  -- The sibling's name is longer.
  pub staged_other : path ≢ staged_name dir name
  staged_other e = omega (
    arith,
    ap length e,
    ap length w.cut,
    length-append dir (b'/' ∷ name),
    length-append dir (codes "/." ++ (name ++ codes ".pve-compose-tmp")),
    length-append name (codes ".pve-compose-tmp"),
  )
