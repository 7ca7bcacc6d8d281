-- ===== src/Pct/Ran.antt =====
-- Runs of src/pct.rs: a call passes through states of the node before it gives its result.
use pve_compose.Base.{
  ◌≡◌, List, [], ◌∷◌, ◌++◌, All, All-append, All-append_left, All-append_right, Result, ok, err,
  Result-cases, inl, inr,
}

pub record Ran (S E A : Type 0) : Type 0 where
  pub passed : List S
  pub now : S
  pub result : Result E A

module _ {S E A : Type 0} where
  -- Every state of the run, the last included: what another reader may find, also when the program is
  -- killed on the way.
  abbrev pub seen : Ran S E A → List S
  seen r = r.passed ++ r.now ∷ []

  -- Nothing is called.
  abbrev pub stays : S → Result E A → Ran S E A
  stays s result = record { passed = []; now = s; result = result }

  abbrev pub with_result : {B F : Type 0} → Ran S E A → Result F B → Ran S F B
  with_result r result = record { passed = r.passed; now = r.now; result = result }

  -- One run behind another.
  abbrev pub behind : {F B : Type 0} → Ran S E A → Ran S F B → Ran S F B
  behind r q = record { passed = r.passed ++ r.now ∷ q.passed; now = q.now; result = q.result }

  abbrev go_on : {B : Type 0} → Ran S E A → (A → S → Ran S E B) → Result E A → Ran S E B
  go_on r f (err e) = with_result r (err e)
  go_on r f (ok a) = behind r (f a r.now)

  abbrev pub and_then : {B : Type 0} → Ran S E A → (A → S → Ran S E B) → Ran S E B
  and_then r f = go_on r f r.result

module _ {S : Type 0} (P : S → Type 0) where
  pub All-behind :
      {E F A B : Type 0}
      → (r : Ran S E A) (q : Ran S F B) → All P (seen r)
      → All P (seen q)
      → All P (seen (behind r q))
  All-behind r q h k =
      All-append P (r.passed ++ r.now ∷ q.passed) (q.now ∷ [])
        (All-append P r.passed (r.now ∷ q.passed) (All-append_left P r.passed (r.now ∷ []) h) (
          (All-append_right P r.passed (r.now ∷ []) h).0,
          All-append_left P q.passed (q.now ∷ []) k,
        ))
        (All-append_right P q.passed (q.now ∷ []) k)

  pub All-now : {E A : Type 0} → (r : Ran S E A) → All P (seen r) → P r.now
  All-now r h = (All-append_right P r.passed (r.now ∷ []) h).0

  -- `P` all along the run, and `Q` at its end if it succeeds.
  abbrev pub Runs : {E A : Type 0} → (A → S → Type 0) → Ran S E A → Type 0
  Runs {A = A} Q r = All P (seen r) × ((a : A) → r.result ≡ ok a → Q a r.now)

  pub Runs-and_then :
      {E A B : Type 0} (Q : B → S → Type 0)
      → (r : Ran S E A) (f : A → S → Ran S E B) → All P (seen r)
      → ((a : A) → r.result ≡ ok a → Runs Q (f a r.now))
      → Runs Q (and_then r f)
  Runs-and_then Q r f h k = elim (Result-cases r.result) [
    | inl (e, failed) ↦ rw failed (h, λ b absent. cc absent)
    | inr (a, there) ↦ rw there (All-behind r (f a r.now) h (k a there).0, (k a there).1)
  ]
