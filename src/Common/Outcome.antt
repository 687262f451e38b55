-- ===== src/Common/Outcome.antt =====
-- JavaScript's exceptions as values, and chains of actions that may throw.
use mathlib.Core.Path.{◌≡◌, refl, ap}
use mathlib.Core.Logic.{◌⊎◌, inl, inr}

pub data Result {ℓ κ} (E : Type ℓ) (A : Type κ) : Type (ℓ ⊔ κ) where
  ok : A → Result E A
  err : E → Result E A

infixl 5 ◌>>=◌
abbrev pub ◌>>=◌ {ε α β} :
    {Thrown : Type ε} {Given : Type α} {Next : Type β}
    → Result Thrown Given
    → (Given → Result Thrown Next)
    → Result Thrown Next
err thrown >>= next = err thrown
ok given >>= next = next given

pub Result-cases {ℓ κ} :
    {E : Type ℓ} {A : Type κ} (m : Result E A) → ((a : A) × (m ≡ ok a)) ⊎ ((e : E) × (m ≡ err e))
Result-cases (ok a) = inl (a, refl)
Result-cases (err e) = inr (e, refl)

infixl 5 ◌>>◌
abbrev pub ◌>>◌ {ε β} :
    {Thrown : Type ε} {Next : Type β}
    → Result Thrown (Unit {0})
    → Result Thrown Next
    → Result Thrown Next
before >> next = before >>= λ _. next

-- Where a chain gives a value, its first part does.
pub >>=-eq-ok {ε α β} :
    {Thrown : Type ε} {Given : Type α} {Next : Type β} (first : Result Thrown Given)
    (next : Given → Result Thrown Next) {last : Next}
    → (first >>= next) ≡ ok last
    → (given : Given) × (first ≡ ok given) × (next given ≡ ok last)
>>=-eq-ok (err thrown) next chain = absurd (cc)
>>=-eq-ok (ok given) next chain = (given, refl, chain)

pub >>=-of-ok {ε α β} :
    {Thrown : Type ε} {Given : Type α} {Next : Type β} (first : Result Thrown Given)
    (next : Given → Result Thrown Next) (given : Given)
    → first ≡ ok given
    → (first >>= next) ≡ next given
>>=-of-ok first next given found = ap (λ outcome. outcome >>= next) found

pub ok-injective {ε α} :
    {Thrown : Type ε} {Given : Type α} {x y : Given}
    → ◌≡◌ {A = Result Thrown Given} (ok x) (ok y)
    → x ≡ y
ok-injective same = cc
