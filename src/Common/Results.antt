-- ===== src/Common/Results.antt =====
-- A Go result with an error: the value, or the error of an early return.
use mathlib.Core.Path.{◌≡◌, refl}
use mathlib.Core.Logic.{◌⊎◌, inl, inr}

pub data Result {ℓ} (E : Type 0) (A : Type ℓ) : Type ℓ where
  err : E → Result E A
  ok : A → Result E A

-- `if err != nil { return err }`, and then the rest of the function.
infixl 5 ◌>>=◌
abbrev pub ◌>>=◌ {ℓ κ} :
    {E : Type 0} {A : Type ℓ} {B : Type κ} → Result E A → (A → Result E B) → Result E B
err failure >>= rest = err failure
ok value >>= rest = rest value

-- A function that returned without an error passed its first step.
pub >>=-ok {ℓ κ} :
    {E : Type 0} {A : Type ℓ} {B : Type κ} {result : B} (first : Result E A) (rest : A → Result E B)
    → (first >>= rest) ≡ ok result
    → (value : A) × (first ≡ ok value) × (rest value ≡ ok result)
>>=-ok (err failure) rest returned = cc
>>=-ok (ok value) rest returned = (value, refl, returned)

pub ok-injective {ℓ} :
    {E : Type 0} {A : Type ℓ} {a b : A} → ◌≡◌ {A = Result E A} (ok a) (ok b) → a ≡ b
ok-injective h = cc

pub Result-cases {ℓ} :
    {E : Type 0} {A : Type ℓ} (r : Result E A)
    → ((value : A) × (r ≡ ok value)) ⊎ ((failure : E) × (r ≡ err failure))
Result-cases (ok value) = inl (value, refl)
Result-cases (err failure) = inr (failure, refl)
