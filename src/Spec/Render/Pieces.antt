-- ===== src/Spec/Render/Pieces.antt =====
-- A text of a document in the pieces that it is made of, and one variable of it replaced as `replace`
-- of src/spec.rs does.
pub mod Substituted
pub mod PutIn
use native.Mathlib.Omega.{arith}
use pve_compose.Base.{
  ℕ, zero, suc, ◌≡◌, ◌≢◌, refl, sym, ap, ◌∙◌, Bool, true, false, ◌&&◌, ◌||◌, not, Option, none,
  some, List, [], ◌∷◌, ◌++◌, append_assoc, map, Text, codes, length, strip_prefix, starts_with,
  strip_prefix-append, contains, Lacks, All, ◌==◌, if◌then◌else◌, Bool-cases, inl, inr, ◌⊎◌,
  is_some,
}
use pve_compose.Base.Decimal.{show}
use pve_compose.Layout.{stack_dir}
use pve_compose.Plan.Build.{bool_eq}
use pve_compose.Spec.Render.{Vars, replace_at, replace}

pub data Var : Type 0 where
  gid : Var
  name : Var
  stack : Var
  uid : Var
  vmid : Var

abbrev pub initial : Var → ℕ
initial gid = b'G'
initial name = b'N'
initial stack = b'S'
initial uid = b'U'
initial vmid = b'V'

abbrev rest_of : Var → Text
rest_of gid = codes "ID"
rest_of name = codes "AME"
rest_of stack = codes "TACK"
rest_of uid = codes "ID"
rest_of vmid = codes "MID"

-- The documented variables, without their dollar.
abbrev pub tail : Var → (braced : Bool) → Text
tail v true = b'{' ∷ (codes "PVE_" ++ initial v ∷ (rest_of v ++ codes "}"))
tail v false = codes "PVE_" ++ initial v ∷ rest_of v

abbrev pub value : Vars → Var → Text
value vars gid = vars.gid
value vars name = vars.name
value vars stack = codes "/opt/stack"
value vars uid = vars.uid
value vars vmid = show vars.vmid

pub data Piece : Type 0 where
  literal : Text → Piece
  variable : Var → (braced : Bool) → Piece

abbrev spell_one : Piece → Text
spell_one (literal t) = t
spell_one (variable v braced) = b'$' ∷ tail v braced

unfoldable pub spell : List Piece → Text
spell [] = []
spell (p ∷ ps) = spell_one p ++ spell ps

abbrev mean_one : Vars → Piece → Text
mean_one vars (literal t) = t
mean_one vars (variable v braced) = value vars v

unfoldable pub meaning : Vars → List Piece → Text
meaning vars [] = []
meaning vars (p ∷ ps) = mean_one vars p ++ meaning vars ps

abbrev pub IsPiece : Piece → Type 0
IsPiece (literal t) = Lacks b'$' t
IsPiece (variable v braced) = Unit

pub of_initial : ℕ → Var
of_initial n =
    if n == b'G'
    then gid
    else if n == b'N'
    then name
    else if n == b'S'
    then stack
    else if n == b'U'
    then uid
    else vmid

pub of_initial-initial : (v : Var) → of_initial (initial v) ≡ v
unfolding of_initial
of_initial-initial gid = refl
of_initial-initial name = refl
of_initial-initial stack = refl
of_initial-initial uid = refl
of_initial-initial vmid = refl

-- A position where both texts have a code point, and not the same.
pub mismatch : Text → Text → Bool
mismatch [] w = false
mismatch (c ∷ x) [] = false
mismatch (c ∷ x) (d ∷ w) = if c == d then mismatch x w else true

mismatch_none : (x w rest : Text) → mismatch x w ≡ true → starts_with (x ++ rest) w ≡ false
unfolding mismatch strip_prefix
mismatch_none [] w rest h = absurd (cc h)
mismatch_none (c ∷ x) [] rest h = absurd (cc h)
mismatch_none (c ∷ x) (d ∷ w) rest h = elim (Bool-cases (c == d)) [
  | inl same ↦ rw same (mismatch_none x w rest (rw same at h))
  | inr differ ↦ rw differ refl
]

pub tails_differ :
    (j k : Var) (c b : Bool)
    → ((initial j == initial k) && bool_eq c b) ≡ false
    → mismatch (tail j c) (tail k b) ≡ true
unfolding mismatch
tails_differ j k true true h = rw (first (initial j == initial k) h) refl
  where
    first : (a : Bool) → (a && true) ≡ false → a ≡ false
    first a h = ground arith
tails_differ j k true false h = refl
tails_differ j k false true h = refl
tails_differ j k false false h = rw (first (initial j == initial k) h) refl
  where
    first : (a : Bool) → (a && true) ≡ false → a ≡ false
    first a h = ground arith

pub tail-Lacks : (v : Var) (b : Bool) → Lacks b'$' (tail v b)
tail-Lacks gid true = omega arith
tail-Lacks gid false = omega arith
tail-Lacks name true = omega arith
tail-Lacks name false = omega arith
tail-Lacks stack true = omega arith
tail-Lacks stack false = omega arith
tail-Lacks uid true = omega arith
tail-Lacks uid false = omega arith
tail-Lacks vmid true = omega arith
tail-Lacks vmid false = omega arith

module _ (w to : Text) where
  abbrev over : Text → Text
  over = replace (b'$' ∷ w) to

  pub over_literal : (t rest : Text) → Lacks b'$' t → over (t ++ rest) ≡ t ++ over rest
  unfolding replace_at strip_prefix
  over_literal [] rest h = refl
  over_literal (c ∷ t) rest (differ, h) =
      rw (other c differ) (ap (λ u. c ∷ u) (over_literal t rest h))
    where
      other : (c : ℕ) → c ≢ b'$' → (c == b'$') ≡ false
      other c h = ground arith

  over_rest : (u rest : Text) → replace_at (b'$' ∷ w) to (length u) (u ++ rest) ≡ over rest
  unfolding replace_at
  over_rest [] rest = refl
  over_rest (c ∷ u) rest = over_rest u rest

  pub over_same : (rest : Text) → over (b'$' ∷ (w ++ rest)) ≡ to ++ over rest
  unfolding replace_at strip_prefix
  over_same rest = rw (strip_prefix-append w rest) (ap (λ u. to ++ u) (over_rest w rest))

  pub over_other :
      (x rest : Text)
      → Lacks b'$' x
      → mismatch x w ≡ true
      → over (b'$' ∷ (x ++ rest)) ≡ b'$' ∷ (x ++ over rest)
  unfolding replace_at strip_prefix
  over_other x rest h differ =
      rw (mismatch_none x w rest differ) (ap (λ u. b'$' ∷ u) (over_literal x rest h))
