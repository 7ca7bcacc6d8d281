-- ===== src/Doc/Parsed.antt =====
-- What `parse` of src/doc.rs lets through.
use pve_compose.Base.{
  ◌≡◌, ◌⊎◌, subst, true, Option, none, some, ◌∷◌, ◌++◌, Text, ok, >>=-eq-ok, map_err-eq-ok,
  ok-injective, guard-eq-ok, ok_or, is_some, guard, map_err,
}
use pve_compose.Spec.Yaml.{as_mapping}
use pve_compose.Spec.Bounds.{split_owner}
use pve_compose.Spec.Bounds.Accepted.{IsNumeral, split_owner_sound}
use pve_compose.Doc.{Doc, not_a_document, spec_not_a_map, bad_stack_owner, check_stack_owner, parse}

-- `uid:gid` or `uid`, in decimal digits.
abbrev pub IsOwner : Text → Type 0
IsOwner owner =
    (u : Text) × (g : Text) × IsNumeral u
    × IsNumeral g
    × ((owner ≡ u ++ b':' ∷ g) ⊎ ((owner ≡ u) × (owner ≡ g)))

abbrev pub OwnerIsSafe : Option Text → Type 0
OwnerIsSafe none = Unit
OwnerIsSafe (some owner) = IsOwner owner

check_stack_owner_sound : (o : Option Text) → check_stack_owner o ≡ ok tt → OwnerIsSafe o
unfolding check_stack_owner
check_stack_owner_sound none h = tt
check_stack_owner_sound (some owner) h =
    let ((u, g), split, _) = >>=-eq-ok (map_err bad_stack_owner (split_owner owner)) _ h in
    let (nu, ng, form) =
      split_owner_sound owner u g (map_err-eq-ok bad_stack_owner (split_owner owner) split) in
    (u, g, nu, ng, form)

-- A document that is read has a map as its spec, and the owner that it names, if any, is made of
-- digits and at most one colon.
pub parse-OwnerIsSafe :
    (from_str : Text → Option Doc) (text : Text) (doc : Doc)
    → parse from_str text ≡ ok doc
    → (is_some (as_mapping doc.spec) ≡ true) × OwnerIsSafe doc.stack.owner
unfolding parse
parse-OwnerIsSafe from_str text doc h =
    let (d, read, rest) = >>=-eq-ok (ok_or (from_str text) not_a_document) _ h in
    let (_, map_ok, rest') =
      >>=-eq-ok (guard (is_some (as_mapping d.spec)) spec_not_a_map) _ rest in
    let (_, owner_ok, same) = >>=-eq-ok (check_stack_owner d.stack.owner) _ rest' in
    subst (λ (e : Doc). (is_some (as_mapping e.spec) ≡ true) × OwnerIsSafe e.stack.owner)
      (ok-injective same)
      (guard-eq-ok _ spec_not_a_map map_ok, check_stack_owner_sound d.stack.owner owner_ok)
