-- ===== src/Base/Results.antt =====
-- `anyhow::Result` with the program's errors, and its `?`.
use mathlib.Core.Path.{◌≡◌, refl}
use mathlib.Core.Bool.{Bool, true, false}
use mathlib.Core.Logic.{◌⊎◌, inl, inr}
use mathlib.Core.Option.{Option, none, some}
use pve_compose.Base.Tests.{if◌then◌else◌}

-- The type of errors is the component's own.
pub data Result {ℓ κ} (E : Type κ) (A : Type ℓ) : Type (ℓ ⊔ κ) where
  err : E → Result E A
  ok : A → Result E A

-- `option.ok_or_else(|| e)`
abbrev pub ok_or {ℓ μ} : {E : Type μ} {A : Type ℓ} → Option A → E → Result E A
ok_or none e = err e
ok_or (some a) e = ok a

-- `if !holds { bail!(e) }`
abbrev pub guard {μ} : {E : Type μ} (holds : Bool) → E → Result E (Unit {0})
guard false e = err e
guard true e = ok tt

pub guard-eq-ok {μ} :
    {E : Type μ} (holds : Bool) (e : E) {u : Unit {0}} → guard holds e ≡ ok u → holds ≡ true
guard-eq-ok false e h = cc
guard-eq-ok true e h = refl

-- `result.map_err(context)` and `with_context`
abbrev pub map_err {ℓ κ μ} :
    {E : Type μ} {F : Type κ} {A : Type ℓ} → (E → F) → Result E A → Result F A
map_err context (err e) = err (context e)
map_err context (ok a) = ok a

pub map_err-eq-ok {ℓ κ μ} :
    {E : Type μ} {F : Type κ} {A : Type ℓ} (context : E → F) (r : Result E A) {a : A}
    → map_err context r ≡ ok a
    → r ≡ ok a
map_err-eq-ok context (err e) h = cc
map_err-eq-ok context (ok a) h = cc

-- The `?` behind a result: an error ends the function.
abbrev pub ◌>>=◌ {ℓ κ μ} :
    {E : Type μ} {A : Type ℓ} {B : Type κ} (r : Result E A) (rest : A → Result E B) → Result E B
err e >>= rest = err e
ok a >>= rest = rest a

-- The same where the value is not used.
abbrev pub ◌>>◌ {ℓ μ} :
    {E : Type μ} {B : Type ℓ} (check : Result E (Unit {0})) (rest : Result E B) → Result E B
check >> rest = check >>= (λ done. rest)

infixl 5 ◌>>=◌ ◌>>◌
-- A function that succeeds got past its first `?`, and then succeeded.
pub >>=-eq-ok {ℓ κ μ} :
    {E : Type μ} {A : Type ℓ} {B : Type κ} (r : Result E A) (rest : A → Result E B) {result : B}
    → (r >>= rest) ≡ ok result
    → (a : A) × (r ≡ ok a) × (rest a ≡ ok result)
>>=-eq-ok (err e) rest h = cc
>>=-eq-ok (ok a) rest h = (a, refl, h)

pub ok-injective {ℓ μ} :
    {E : Type μ} {A : Type ℓ} {a b : A} → Path (Result E A) (ok a) (ok b) → a ≡ b
ok-injective h = cc

-- To split on a computed result and keep the equation.
pub Result-cases {ℓ μ} :
    {E : Type μ} {A : Type ℓ} (r : Result E A) → ((e : E) × (r ≡ err e)) ⊎ ((a : A) × (r ≡ ok a))
Result-cases (err e) = inl (e, refl)
Result-cases (ok a) = inr (a, refl)

-- Whichever branch an `if` has taken, what follows from both.
pub if-either {ℓ κ} :
    {A : Type ℓ} {Q : Type κ} (b : Bool) {x y z : A}
    → (b ≡ true → x ≡ z → Q)
    → (b ≡ false → y ≡ z → Q)
    → (if b then x else y) ≡ z
    → Q
if-either true f g h = f refl h
if-either false f g h = g refl h
