-- ===== src/Ops/ConfigCmd/Keys.antt =====
-- The keys of src/ops/configcmd.rs: what is set is undone by `unset`.
use pve_compose.Base.{
  if◌then◌else◌, false, true, ◌>>=◌, ◌≡◌, refl, ap, Bool, Text, codes, text_eq, any, Result, ok,
  err, ok-injective, subst,
}
use pve_compose.Base.Dict.Sorted.{IsSorted}
use pve_compose.Size.{Float}
use pve_compose.Config.{Config}
use pve_compose.Config.Nodes.{unset-set}
use pve_compose.Ops.ConfigCmd.{ConfigError, config_keys, set, unset}

abbrev pub is_key : Text → Bool
is_key key = any (λ k. text_eq key k) config_keys

-- What a branch of `set` gives is undone by the same branch of `unset`.
abbrev Undone : Config → Result ConfigError Config → (Config → Result ConfigError Config) → Type 0
Undone c s u = (c' : Config) → s ≡ ok c' → u c' ≡ u c

if-Undone :
    (c : Config) (b : Bool) (s t : Result ConfigError Config)
    (u v : Config → Result ConfigError Config)
    → Undone c s u
    → Undone c t v
    → Undone c (if b then s else t) (λ x. if b then u x else v x)
if-Undone c true s t u v h k = h
if-Undone c false s t u v h k = k

-- A branch that succeeds, and one behind a `?`.
ok-Undone : (c d : Config) (u : Config → Result ConfigError Config) → u d ≡ u c → Undone c (ok d) u
ok-Undone c d u h c' e = subst (λ x. u x ≡ u c) (ok-injective e) h

read-Undone :
    {A : Type 0} (c : Config) (r : Result ConfigError A) (f : A → Config)
    (u : Config → Result ConfigError Config)
    → ((x : A) → u (f x) ≡ u c)
    → Undone c (r >>= λ x. ok (f x)) u
read-Undone c (err e) f u h c' absent = absurd (cc absent)
read-Undone c (ok x) f u h c' e = ok-Undone c (f x) u (h x) c' e

module _ (fl : Float) (c : Config) (node : Text) (sorted : IsSorted c.nodes) where
  -- In a config whose nodes are sorted by name, a value that `set` took for a key is gone after
  -- `unset`: the result is what `unset` gives for the config from before.
  pub unset-set_lem :
      (key value : Text) (c' : Config)
      → set fl c node key value ≡ ok c'
      → unset c' node key ≡ unset c node key
  unfolding set unset
  unset-set_lem key value =
      if-Undone c (text_eq key (codes "storage")) _ _ _ _
        (ok-Undone c _ _ (ap (λ x. ok x) (unset-set c node value sorted)))
        (if-Undone c (text_eq key (codes "template-storage")) _ _ _ _ (ok-Undone c _ _ refl) (
          if-Undone c (text_eq key (codes "template-base")) _ _ _ _ (ok-Undone c _ _ refl) (
            if-Undone c (text_eq key (codes "owner")) _ _ _ _ (read-Undone c _ _ _ (λ _. refl)) (
              if-Undone c (text_eq key (codes "bridge")) _ _ _ _ (ok-Undone c _ _ refl) (
                if-Undone c (text_eq key (codes "cores")) _ _ _ _ (read-Undone c _ _ _ (λ _. refl))
                  (if-Undone c (text_eq key (codes "memory")) _ _ _ _
                    (read-Undone c _ _ _ (λ _. refl))
                    (if-Undone c (text_eq key (codes "rootfs-size")) _ _ _ _
                      (read-Undone c _ _ _ (λ _. refl)) (λ c' absent. absurd (cc absent)))))))))
