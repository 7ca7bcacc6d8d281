-- ===== src/Config/Nodes.antt =====
-- The storage of each node in src/config.rs, read and set.
use pve_compose.Base.{
  ◌≡◌, refl, Bool, true, false, Option, none, some, Text, text_eq, if◌then◌else◌, Option-cases,
  Bool-cases, inl, inr, subst, sym, text_eq_sound, text_eq_refl, ◌∙◌,
}
use pve_compose.Base.Dict.{lookup, lookup-insert, remove}
use pve_compose.Base.Dict.Sorted.{IsSorted, lookup-remove, remove-insert, remove_absent}
use pve_compose.Config.{Config, NodeOverrides, storage_for, set_storage_for, storage_of}

-- In a config whose nodes are sorted by name, setting or unsetting a node's storage changes what
-- that node has to it, and no other node's.
pub storage_for-set_storage_for :
    (c : Config) (node other : Text) (s : Option Text)
    → IsSorted c.nodes
    → storage_for (set_storage_for c node s) other
      ≡ (if text_eq other node then s else storage_for c other)
unfolding storage_for set_storage_for
storage_for-set_storage_for c node other (some s) sorted =
    rw (lookup-insert other node (record { storage = some s }) c.nodes)
      (either (text_eq other node) s (lookup other c.nodes))
  where
    either :
        (b : Bool) (s : Text) (o : Option NodeOverrides)
        → storage_of (if b then some (record { storage = some s }) else o)
          ≡ (if b then some s else storage_of o)
    either true s o = refl
    either false s o = refl
storage_for-set_storage_for c node other none sorted = elim (Option-cases (lookup node c.nodes)) [
  | inl unset ↦
      rw (set_storage_for, unset)
        (elim (Bool-cases (text_eq other node)) [
          | inl here ↦
              rw
                (
                  here,
                  subst (λ t. lookup t c.nodes ≡ none) (sym (text_eq_sound other node here)) unset,
                )
                refl
          | inr there ↦ rw there refl
        ])
  | inr (n, e) ↦
      rw (set_storage_for, e)
        (rw (lookup-remove other node c.nodes sorted)
          (gone (text_eq other node) (lookup other c.nodes)))
]
  where
    gone :
        (b : Bool) (o : Option NodeOverrides)
        → storage_of (if b then none else o) ≡ (if b then none else storage_of o)
    gone true o = refl
    gone false o = refl

absent : (c : Config) (node : Text) → lookup node c.nodes ≡ none → set_storage_for c node none ≡ c
unfolding set_storage_for
absent c node h = rw (set_storage_for, h) refl

present :
    (c : Config) (node : Text)
    → IsSorted c.nodes
    → set_storage_for c node none ≡ record c { nodes = remove node c.nodes }
unfolding set_storage_for
present c node sorted = elim (Option-cases (lookup node c.nodes)) [
  | inl unset ↦
      rw (set_storage_for, unset)
        (λ i. record c { nodes = sym (remove_absent node c.nodes unset) i })
  | inr (n, e) ↦ rw (set_storage_for, e) refl
]

-- A storage that is set and unset leaves what unsetting leaves.
pub unset-set :
    (c : Config) (node s : Text)
    → IsSorted c.nodes
    → set_storage_for (set_storage_for c node (some s)) node none ≡ set_storage_for c node none
unfolding set_storage_for
unset-set c node s sorted =
    rw
      (
        set_storage_for,
        lookup-insert node node (record { storage = some s }) c.nodes,
        text_eq_refl node,
      )
      ((λ i. record c { nodes = remove-insert node (record { storage = some s }) c.nodes sorted i })
        ∙ sym (present c node sorted))
