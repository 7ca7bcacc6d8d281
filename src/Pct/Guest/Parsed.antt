-- ===== src/Pct/Guest/Parsed.antt =====
-- The mounts of a config that src/pct.rs has read.
use native.Mathlib.Omega.{arith}
use pve_compose.Base.{
  ℕ, ◌≡◌, ◌≢◌, ◌⊎◌, inl, inr, refl, sym, ap, subst, ◌∙◌, true, false, Option, none, some, List, [],
  ◌∷◌, ◌++◌, append-nil, Text, text_eq, text_eq_refl, All, All-map, All-append, Bool-cases, Result,
  ok, >>=-eq-ok, ok-injective, strip_prefix, codes, if-either, ◌>>=◌, Any,
}
use pve_compose.Base.Dict.{lookup, HasDistinctKeys}
use pve_compose.Size.{Float}
use pve_compose.Pct.Mount.{Mount, MountError, index, parse}
use pve_compose.Pct.Mount.Keyed.{parse-key}
use pve_compose.Pct.Guest.{
  GuestConfig, Json, text_of, digits_behind_mp, set_key, set_keys, index_le, insert_sorted,
  sort_mounts, empty_config, parse_config,
}
use pve_compose.Pct.Guest.Keys.{IsKeyFree, IsKeyed, IsKeyed-insert}

-- The mounts stand in the order of their indexes.
abbrev pub AreSorted : List Mount → Type 0
AreSorted [] = Unit
AreSorted (m ∷ ms) = All (λ n. index_le (index m) (index n) ≡ true) ms × AreSorted ms

index_le_total : (i j : Option ℕ) → index_le i j ≡ false → index_le j i ≡ true
unfolding index_le
index_le_total none j h = absurd (cc h)
index_le_total (some i) none h = refl
index_le_total (some i) (some j) h = ground arith

index_le_trans :
    (i j k : Option ℕ) → index_le i j ≡ true → index_le j k ≡ true → index_le i k ≡ true
unfolding index_le
index_le_trans none j k h g = refl
index_le_trans (some i) none k h g = absurd (cc h)
index_le_trans (some i) (some j) none h g = absurd (cc g)
index_le_trans (some i) (some j) (some k) h g = ground arith

insert_sorted-All :
    (P : Mount → Type 0) (m : Mount) (ms : List Mount) → P m → All P ms → All P (insert_sorted m ms)
unfolding insert_sorted
insert_sorted-All P m [] p _ = (p, tt)
insert_sorted-All P m (n ∷ ns) p (q, qs) = elim (Bool-cases (index_le (index m) (index n))) [
  | inl here ↦ rw here (p, (q, qs))
  | inr later ↦ rw later (q, insert_sorted-All P m ns p qs)
]

insert_sorted-AreSorted :
    (m : Mount) (ms : List Mount) → AreSorted ms → AreSorted (insert_sorted m ms)
unfolding insert_sorted
insert_sorted-AreSorted m [] _ = (tt, tt)
insert_sorted-AreSorted m (n ∷ ns) (first, sorted) =
    elim (Bool-cases (index_le (index m) (index n))) [
      | inl here ↦ rw here (
        (here, All-map (λ x le. index_le_trans (index m) (index n) (index x) here le) ns first),
        (first, sorted),
      )
      | inr later ↦ rw later (
        insert_sorted-All (λ x. index_le (index n) (index x) ≡ true) m ns
            (index_le_total (index m) (index n) later) first,
        insert_sorted-AreSorted m ns sorted,
      )
    ]

insert_sorted-IsKeyed :
    (m : Mount) (ms : List Mount) → IsKeyFree m.key ms → IsKeyed ms → IsKeyed (insert_sorted m ms)
unfolding insert_sorted
insert_sorted-IsKeyed m [] _ _ = (tt, tt)
insert_sorted-IsKeyed m (n ∷ ns) (differ, free) (first, keyed) =
    elim (Bool-cases (index_le (index m) (index n))) [
      | inl here ↦ rw here ((differ, free), (first, keyed))
      | inr later ↦ rw later (
        insert_sorted-All (λ x. x.key ≢ n.key) m ns (λ e. differ (sym e)) first,
        insert_sorted-IsKeyed m ns free keyed,
      )
    ]

sort_mounts-All : (P : Mount → Type 0) (ms : List Mount) → All P ms → All P (sort_mounts ms)
unfolding sort_mounts
sort_mounts-All P [] _ = tt
sort_mounts-All P (m ∷ ms) (p, ps) =
    insert_sorted-All P m (sort_mounts ms) p (sort_mounts-All P ms ps)

sort_mounts-AreSorted : (ms : List Mount) → AreSorted (sort_mounts ms)
unfolding sort_mounts
sort_mounts-AreSorted [] = tt
sort_mounts-AreSorted (m ∷ ms) =
    insert_sorted-AreSorted m (sort_mounts ms) (sort_mounts-AreSorted ms)

sort_mounts-IsKeyed : (ms : List Mount) → IsKeyed ms → IsKeyed (sort_mounts ms)
unfolding sort_mounts
sort_mounts-IsKeyed [] _ = tt
sort_mounts-IsKeyed (m ∷ ms) (free, keyed) =
    insert_sorted-IsKeyed m (sort_mounts ms) (sort_mounts-All (λ n. n.key ≢ m.key) ms free)
      (sort_mounts-IsKeyed ms keyed)

lookup_behind :
    (j k : Text) (v : Json) (m : List (Text × Json))
    → lookup j ((k, v) ∷ m) ≡ none
    → (text_eq j k ≡ false) × (lookup j m ≡ none)
unfolding lookup
lookup_behind j k v m h = elim (Bool-cases (text_eq j k)) [
  | inl same ↦ absurd (cc (rw same at h))
  | inr differ ↦ (differ, rw differ at h)
]

-- A mount under a key `mp` and digits, from the line that the object has there.
abbrev IsRead : Float → Text → Json → Mount → Type 0
IsRead fl k val m =
    (parse fl k (text_of val) ≡ ok m) × (digits_behind_mp (strip_prefix k (codes "mp")) ≡ true)

module _ (fl : Float) where
  set_key_cases :
      (c : GuestConfig) (k : Text) (val : Json) (c' : GuestConfig)
      → set_key fl c k val ≡ ok c'
      → (c'.mounts ≡ c.mounts)
        ⊎ ((m : Mount) × IsRead fl k val m × (c'.mounts ≡ c.mounts ++ m ∷ []))
  unfolding set_key
  set_key_cases c k val c' =
      if-either (text_eq k (codes "hostname")) (λ _ h. inl (kept h))
        (λ _.
          if-either (text_eq k (codes "unprivileged")) (λ _ h. inl (kept h))
            (λ _.
              if-either (text_eq k (codes "template")) (λ _ h. inl (kept h))
                (λ _.
                  if-either (text_eq k (codes "tags")) (λ _ h. inl (kept h))
                    (λ _.
                      if-either (text_eq k (codes "features")) (λ _ h. inl (kept h))
                        (λ _.
                          if-either (text_eq k (codes "rootfs")) (λ _ h. inl (rooted h))
                            (λ _.
                              if-either (digits_behind_mp (strip_prefix k (codes "mp")))
                                (λ digits h. inr (mounted digits h)) (λ _ h. inl (kept h))))))))
    where
      kept :
          {d : GuestConfig}
          → Path (Result MountError GuestConfig) (ok d) (ok c')
          → c'.mounts ≡ d.mounts
      kept h = ap (λ (g : GuestConfig). g.mounts) (sym (ok-injective h))

      rooted :
          (parse fl (codes "rootfs") (text_of val) >>= (λ m. ok (record c { rootfs = some m })))
            ≡ ok c'
          → c'.mounts ≡ c.mounts
      rooted h = let (m, _, e) = >>=-eq-ok (parse fl (codes "rootfs") (text_of val)) _ h in kept e

      mounted :
          digits_behind_mp (strip_prefix k (codes "mp")) ≡ true
          → (parse fl k (text_of val) >>= (λ m. ok (record c { mounts = c.mounts ++ m ∷ [] })))
            ≡ ok c'
          → (m : Mount) × IsRead fl k val m × (c'.mounts ≡ c.mounts ++ m ∷ [])
      mounted digits h =
          let (m, read, e) = >>=-eq-ok (parse fl k (text_of val)) _ h in (m, (read, digits), kept e)

  -- Every mount stands under a key of the object, and comes from the line there.
  abbrev pub ComesFrom : List (Text × Json) → Mount → Type 0
  ComesFrom obj m = Any (λ kv. (kv.0 ≡ m.key) × IsRead fl kv.0 kv.1 m) obj

  -- What holds of the mounts while the keys `rest` of `all` are still to be read.
  abbrev AreFrom : (all rest : List (Text × Json)) → List Mount → Type 0
  AreFrom all rest ms = IsKeyed ms × All (λ m. lookup m.key rest ≡ none) ms × All (ComesFrom all) ms

  set_key-AreFrom :
      (all rest : List (Text × Json)) (c : GuestConfig) (k : Text) (val : Json) (d : GuestConfig)
      → lookup k rest ≡ none
      → ((m : Mount) → (k ≡ m.key) × IsRead fl k val m → ComesFrom all m)
      → set_key fl c k val ≡ ok d
      → AreFrom all ((k, val) ∷ rest) c.mounts
      → AreFrom all rest d.mounts
  set_key-AreFrom all rest c k val d new comes set (keyed, free, from) =
      elim (set_key_cases c k val d set) [
        | inl kept ↦ subst (AreFrom all rest) (sym kept) (keyed, unread, from)
        | inr (m, read, added) ↦
            let key = parse-key fl k (text_of val) m read.0 in
            subst (AreFrom all rest) (sym added) (
              IsKeyed-insert c.mounts [] m (subst IsKeyed (sym (append-nil c.mounts)) keyed)
                  (subst (IsKeyFree m.key) (sym (append-nil c.mounts)) (other_keys m key)),
              All-append (λ n. lookup n.key rest ≡ none) c.mounts (m ∷ []) unread
                  (subst (λ j. lookup j rest ≡ none) (sym key) new, tt),
              All-append (ComesFrom all) c.mounts (m ∷ []) from (comes m (sym key, read), tt),
            )
      ]
    where
      unread : All (λ n. lookup n.key rest ≡ none) c.mounts
      unread = All-map (λ n h. (lookup_behind n.key k val rest h).1) c.mounts free

      other_keys : (m : Mount) → m.key ≡ k → IsKeyFree m.key c.mounts
      other_keys m key =
          All-map (λ n h e. differ (lookup_behind n.key k val rest h).0 (e ∙ key)) c.mounts free
        where
          differ : {t : Text} → text_eq t k ≡ false → t ≡ k → ⊥
          differ {t} h e = absurd (cc (sym h ∙ (ap (λ u. text_eq u k) e ∙ text_eq_refl k)))

  set_keys-AreFrom :
      (all rest : List (Text × Json)) (c c' : GuestConfig)
      → HasDistinctKeys rest
      → ((m : Mount) → Any (λ kv. (kv.0 ≡ m.key) × IsRead fl kv.0 kv.1 m) rest → ComesFrom all m)
      → AreFrom all rest c.mounts
      → set_keys fl c rest ≡ ok c'
      → AreFrom all [] c'.mounts
  unfolding set_keys
  set_keys-AreFrom all [] c c' _ _ h e =
      subst (λ (g : GuestConfig). AreFrom all [] g.mounts) (ok-injective e) h
  set_keys-AreFrom all ((k, val) ∷ rest) c c' (new, distinct) wider h e =
      let (d, set, later) = >>=-eq-ok (set_key fl c k val) _ e in
      set_keys-AreFrom all rest d c' distinct (λ m there. wider m (inr there))
        (set_key-AreFrom all rest c k val d new (λ m here. wider m (inl here)) set h) later

  -- The mounts of a config that is read from an object whose keys differ have distinct keys, stand in
  -- the order of their indexes, and each is what the line under its key, `mp` and digits, says.
  pub parse_config-mounts :
      (vmid : ℕ) (obj : List (Text × Json)) (c : GuestConfig)
      → HasDistinctKeys obj
      → parse_config fl vmid obj ≡ ok c
      → IsKeyed c.mounts × AreSorted c.mounts × All (ComesFrom obj) c.mounts
  unfolding parse_config
  parse_config-mounts vmid obj c distinct h =
      let (d, read, e) = >>=-eq-ok (set_keys fl (empty_config vmid) obj) _ h in
      let (keyed, _, from) =
        set_keys-AreFrom obj obj (empty_config vmid) d distinct (λ m there. there) (tt, tt, tt)
          read in
      subst
        (λ (g : GuestConfig). IsKeyed g.mounts × AreSorted g.mounts × All (ComesFrom obj) g.mounts)
        (ok-injective e)
        (
          sort_mounts-IsKeyed d.mounts keyed,
          sort_mounts-AreSorted d.mounts,
          sort_mounts-All (ComesFrom obj) d.mounts from,
        )
