-- ===== src/Spec/Render/Pieces/Substituted.antt =====
-- What `substitute` of src/spec.rs makes of a text in pieces.
use native.Mathlib.Omega.{arith}
use pve_compose.Base.{
  ◌≡◌, refl, sym, ap, ◌∙◌, Bool, true, false, ◌&&◌, ◌||◌, List, [], ◌∷◌, ◌++◌, map, Text, codes,
  strip_prefix, contains, Lacks, All, ◌==◌, if◌then◌else◌, Bool-cases, inl, inr,
}
use pve_compose.Base.Decimal.{show}
use pve_compose.Plan.Build.{bool_eq}
use pve_compose.Spec.Render.{Vars, vars_map, replace_at, replace, replace_vars, substitute}
use pve_compose.Spec.Render.Pieces.{
  Var, gid, name, stack, uid, vmid, initial, tail, value, Piece, literal, variable, spell, meaning,
  IsPiece, of_initial, of_initial-initial, tails_differ, tail-Lacks, over_literal, over_same,
  over_other,
}

-- One spelling of one variable replaced.
abbrev put : Var → Bool → Text → Piece → Piece
put k b val (literal t) = literal t
put k b val (variable j c) =
    if (initial j == initial k) && bool_eq c b then literal val else variable j c

put-IsPiece :
    (k : Var) (b : Bool) (val : Text) (p : Piece)
    → Lacks b'$' val
    → IsPiece p
    → IsPiece (put k b val p)
put-IsPiece k b val (literal t) v h = h
put-IsPiece k b val (variable j c) v h =
    elim (Bool-cases ((initial j == initial k) && bool_eq c b)) [
      | inl same ↦ rw same v
      | inr differ ↦ rw differ tt
    ]

same_spelling :
    (j k : Var) (c b : Bool)
    → ((initial j == initial k) && bool_eq c b) ≡ true
    → tail j c ≡ tail k b
same_spelling j k c b h =
    ap (λ v. tail v c) variables ∙ ap (λ d. tail k d) (flags c b (ground arith))
  where
    flags : (c b : Bool) → bool_eq c b ≡ true → c ≡ b
    flags true b h = sym h
    flags false true h = cc h
    flags false false h = refl

    initials : initial j ≡ initial k
    initials = ground arith

    variables : j ≡ k
    variables = sym (of_initial-initial j) ∙ (ap of_initial initials ∙ of_initial-initial k)

over-spell :
    (k : Var) (b : Bool) (val : Text) (ps : List Piece)
    → All IsPiece ps
    → replace (b'$' ∷ tail k b) val (spell ps) ≡ spell (map (put k b val) ps)
unfolding spell replace_at
over-spell k b val [] h = refl
over-spell k b val (literal t ∷ ps) (h, l) =
    over_literal (tail k b) val t (spell ps) h ∙ ap (λ u. t ++ u) (over-spell k b val ps l)
over-spell k b val (variable j c ∷ ps) (h, l) =
    elim (Bool-cases ((initial j == initial k) && bool_eq c b)) [
      | inl same ↦ rw same (
          ap (λ t. replace (b'$' ∷ tail k b) val (b'$' ∷ (t ++ spell ps)))
            (same_spelling j k c b same)
          ∙ (over_same (tail k b) val (spell ps) ∙ ap (λ u. val ++ u) (over-spell k b val ps l)))
      | inr differ ↦ rw differ (
          over_other (tail k b) val (tail j c) (spell ps) (tail-Lacks j c)
            (tails_differ j k c b differ)
          ∙ ap (λ u. b'$' ∷ (tail j c ++ u)) (over-spell k b val ps l))
    ]

map-IsPiece :
    (k : Var) (b : Bool) (val : Text) (ps : List Piece)
    → Lacks b'$' val
    → All IsPiece ps
    → All IsPiece (map (put k b val) ps)
map-IsPiece k b val [] v h = tt
map-IsPiece k b val (p ∷ ps) v (h, l) = (put-IsPiece k b val p v h, map-IsPiece k b val ps v l)

-- Both spellings of one variable replaced, as the loop over the map does.
abbrev put_both : Vars → Var → List Piece → List Piece
put_both vars k ps = map (put k false (value vars k)) (map (put k true (value vars k)) ps)

put_both-IsPiece :
    (vars : Vars) (k : Var) (ps : List Piece)
    → Lacks b'$' (value vars k)
    → All IsPiece ps
    → All IsPiece (put_both vars k ps)
put_both-IsPiece vars k ps v h =
    map-IsPiece k false (value vars k) (map (put k true (value vars k)) ps) v
      (map-IsPiece k true (value vars k) ps v h)

both-spell :
    (vars : Vars) (k : Var) (ps : List Piece)
    → Lacks b'$' (value vars k)
    → All IsPiece ps
    → replace
        (b'$' ∷ tail k false)
        (value vars k)
        (replace (b'$' ∷ tail k true) (value vars k) (spell ps))
      ≡ spell (put_both vars k ps)
both-spell vars k ps v h =
    ap (replace (b'$' ∷ tail k false) (value vars k)) (over-spell k true (value vars k) ps h)
    ∙ over-spell k false (value vars k) (map (put k true (value vars k)) ps)
        (map-IsPiece k true (value vars k) ps v h)

abbrev put_all : Vars → List Piece → List Piece
put_all vars ps =
    put_both vars vmid
      (put_both vars uid (put_both vars stack (put_both vars name (put_both vars gid ps))))

put_variable :
    (vars : Vars) (ps : List Piece) (v : Var) (b : Bool)
    → spell (put_all vars ps) ≡ meaning vars ps
    → spell (put_all vars (variable v b ∷ ps)) ≡ value vars v ++ meaning vars ps
unfolding spell
put_variable vars ps gid true e = ap (λ u. value vars gid ++ u) e
put_variable vars ps gid false e = ap (λ u. value vars gid ++ u) e
put_variable vars ps name true e = ap (λ u. value vars name ++ u) e
put_variable vars ps name false e = ap (λ u. value vars name ++ u) e
put_variable vars ps stack true e = ap (λ u. value vars stack ++ u) e
put_variable vars ps stack false e = ap (λ u. value vars stack ++ u) e
put_variable vars ps uid true e = ap (λ u. value vars uid ++ u) e
put_variable vars ps uid false e = ap (λ u. value vars uid ++ u) e
put_variable vars ps vmid true e = ap (λ u. value vars vmid ++ u) e
put_variable vars ps vmid false e = ap (λ u. value vars vmid ++ u) e

put_all-meaning : (vars : Vars) (ps : List Piece) → spell (put_all vars ps) ≡ meaning vars ps
unfolding spell meaning
put_all-meaning vars [] = refl
put_all-meaning vars (literal t ∷ ps) = ap (λ u. t ++ u) (put_all-meaning vars ps)
put_all-meaning vars (variable v b ∷ ps) = put_variable vars ps v b (put_all-meaning vars ps)

-- No value of a variable holds a dollar.
abbrev pub AreBare : Vars → Type 0
AreBare vars =
    Lacks b'$' vars.gid × Lacks b'$' vars.name × Lacks b'$' vars.uid × Lacks b'$' (show vars.vmid)

stack_bare : Lacks b'$' (codes "/opt/stack")
stack_bare = omega arith

replaced-spell :
    (vars : Vars) (ps : List Piece)
    → AreBare vars
    → All IsPiece ps
    → replace_vars (vars_map vars) (spell ps) ≡ spell (put_all vars ps)
unfolding replace_vars
replaced-spell vars ps (g, n, u, v) h =
    let s = put_both vars in
    let h₁ = put_both-IsPiece vars gid ps g h in
    let h₂ = put_both-IsPiece vars name (s gid ps) n h₁ in
    let h₃ = put_both-IsPiece vars stack (s name (s gid ps)) stack_bare h₂ in
    let h₄ = put_both-IsPiece vars uid (s stack (s name (s gid ps))) u h₃ in
    rw (both-spell vars gid ps g h) (
      rw (both-spell vars name (s gid ps) n h₁) (
        rw (both-spell vars stack (s name (s gid ps)) stack_bare h₂) (
          rw (both-spell vars uid (s stack (s name (s gid ps))) u h₃)
            (both-spell vars vmid (s uid (s stack (s name (s gid ps)))) v h₄))))

contains_behind : (t rest x : Text) → contains (t ++ rest) x ≡ false → contains rest x ≡ false
unfolding contains
contains_behind [] rest x h = h
contains_behind (c ∷ t) rest x h = contains_behind t rest x (second _ _ h)
  where
    second : (a b : Bool) → (a || b) ≡ false → b ≡ false
    second a b h = ground arith

-- The test before the loop leaves only texts without a variable.
unmentioned :
    (vars : Vars) (ps : List Piece)
    → contains (spell ps) (codes "${PVE_") ≡ false
    → contains (spell ps) (codes "$PVE_") ≡ false
    → spell ps ≡ meaning vars ps
unfolding spell meaning contains strip_prefix
unmentioned vars [] braced bare = refl
unmentioned vars (literal t ∷ ps) braced bare =
    ap (λ u. t ++ u)
      (unmentioned vars ps (contains_behind t (spell ps) (codes "${PVE_") braced)
        (contains_behind t (spell ps) (codes "$PVE_") bare))
unmentioned vars (variable v true ∷ ps) braced bare = absurd (cc braced)
unmentioned vars (variable v false ∷ ps) braced bare = absurd (cc bare)

pub substitute-spell :
    (vars : Vars) (ps : List Piece)
    → AreBare vars
    → All IsPiece ps
    → substitute (vars_map vars) (spell ps) ≡ meaning vars ps
unfolding substitute
substitute-spell vars ps v h = elim (Bool-cases (contains (spell ps) (codes "${PVE_"))) [
  | inl braced ↦ rw braced put_in
  | inr none_braced ↦ elim (Bool-cases (contains (spell ps) (codes "$PVE_"))) [
    | inl bare ↦ rw (none_braced, bare) put_in
    | inr none_bare ↦ rw (none_braced, none_bare) (unmentioned vars ps none_braced none_bare)
  ]
]
  where
    put_in : replace_vars (vars_map vars) (spell ps) ≡ meaning vars ps
    put_in = replaced-spell vars ps v h ∙ put_all-meaning vars ps
