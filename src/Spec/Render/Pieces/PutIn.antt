-- ===== src/Spec/Render/Pieces/PutIn.antt =====
-- What `render` of src/spec.rs puts in for the variables of a text.
use pve_compose.Base.{◌≡◌, refl, ap, Bool, false, List, Text, codes, contains, All}
use pve_compose.Spec.Yaml.{
  Value, null, bool, number, Number, string, sequence, mapping, tagged, Items, nil, cons, Mapping,
  end, entry,
}
use pve_compose.Spec.Render.{Vars, vars_map, substitute, walk, walk_items, walk_mapping}
use pve_compose.Spec.Render.Pieces.{Piece, spell, meaning, IsPiece}
use pve_compose.Spec.Render.Pieces.Substituted.{AreBare, substitute-spell}

-- A value and what it becomes: at any depth, a text that mentions no variable stays as it is, and one
-- that is made of literals without a dollar and of the documented variables, each as `$PVE_…` or
-- `${PVE_…}`, has the value of each variable in its place. Keys stay as they are.
mutual
  pub data IsPutIn (vars : Vars) : Value → Value → Type 0 where
    pieces :
        (ps : List Piece)
        → All IsPiece ps
        → IsPutIn vars (string (spell ps)) (string (meaning vars ps))
    plain :
        (s : Text)
        → contains s (codes "${PVE_") ≡ false
        → contains s (codes "$PVE_") ≡ false
        → IsPutIn vars (string s) (string s)
    no_value : IsPutIn vars null null
    truth : (b : Bool) → IsPutIn vars (bool b) (bool b)
    numeral : (n : Number) → IsPutIn vars (number n) (number n)
    items : {v w : Items} → AreItemsPutIn vars v w → IsPutIn vars (sequence v) (sequence w)
    entries : {v w : Mapping} → AreEntriesPutIn vars v w → IsPutIn vars (mapping v) (mapping w)
    behind_tag :
        (t : Text) {v w : Value} → IsPutIn vars v w → IsPutIn vars (tagged t v) (tagged t w)

  pub data AreItemsPutIn (vars : Vars) : Items → Items → Type 0 where
    no_item : AreItemsPutIn vars nil nil
    item :
        {v w : Value} {vs ws : Items}
        → IsPutIn vars v w
        → AreItemsPutIn vars vs ws
        → AreItemsPutIn vars (cons v vs) (cons w ws)

  pub data AreEntriesPutIn (vars : Vars) : Mapping → Mapping → Type 0 where
    no_entry : AreEntriesPutIn vars end end
    one_entry :
        (k : Value) {v w : Value} {vs ws : Mapping}
        → IsPutIn vars v w
        → AreEntriesPutIn vars vs ws
        → AreEntriesPutIn vars (entry k v vs) (entry k w ws)

mutual
  unfolding walk substitute

  walk-IsPutIn :
      (vars : Vars) {v w : Value} → AreBare vars → IsPutIn vars v w → walk (vars_map vars) v ≡ w
  walk-IsPutIn vars bare (pieces ps h) = ap (λ t. string t) (substitute-spell vars ps bare h)
  walk-IsPutIn vars bare (plain s braced unbraced) = rw (braced, unbraced) refl
  walk-IsPutIn vars bare no_value = refl
  walk-IsPutIn vars bare (truth b) = refl
  walk-IsPutIn vars bare (numeral n) = refl
  walk-IsPutIn vars bare (items h) = ap (λ i. sequence i) (walk_items-ArePutIn vars bare h)
  walk-IsPutIn vars bare (entries h) = ap (λ m. mapping m) (walk_mapping-ArePutIn vars bare h)
  walk-IsPutIn vars bare (behind_tag t h) = ap (λ v. tagged t v) (walk-IsPutIn vars bare h)

  walk_items-ArePutIn :
      (vars : Vars) {v w : Items}
      → AreBare vars
      → AreItemsPutIn vars v w
      → walk_items (vars_map vars) v ≡ w
  walk_items-ArePutIn vars bare no_item = refl
  walk_items-ArePutIn vars bare (item h l) =
      rw (walk-IsPutIn vars bare h, walk_items-ArePutIn vars bare l) refl

  walk_mapping-ArePutIn :
      (vars : Vars) {v w : Mapping}
      → AreBare vars
      → AreEntriesPutIn vars v w
      → walk_mapping (vars_map vars) v ≡ w
  walk_mapping-ArePutIn vars bare no_entry = refl
  walk_mapping-ArePutIn vars bare (one_entry k h l) =
      rw (walk-IsPutIn vars bare h, walk_mapping-ArePutIn vars bare l) refl
