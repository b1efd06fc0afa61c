-- ===== src/Prelude/Results.antt =====
-- What a fallible operation of the source returns: its value or its error, with the early returns
-- of the source as a chain of them.
use mathlib.Core.Path.{◌≡◌, refl}
use mathlib.Core.Bool.{Bool, true, false}

pub data Result {ℓ} (E : Type 0) (A : Type ℓ) : Type ℓ where
  err : E → Result E A
  ok : A → Result E A

-- `if !b { return e }`.
abbrev pub check : {E : Type 0} → Bool → E → Result E (Unit {0})
check false failure = err failure
check true failure = ok tt

infixl 5 ◌>>=◌ ◌>>◌
abbrev pub ◌>>=◌ {κ ℓ} :
    {E : Type 0} {B : Type κ} {A : Type ℓ} → Result E B → (B → Result E A) → Result E A
err failure >>= next = err failure
ok value >>= next = next value

abbrev pub ◌>>◌ {κ} : {E : Type 0} {B : Type κ} → Result E (Unit {0}) → Result E B → Result E B
guard >> next = guard >>= λ _. next

-- Inversion of a successful bind, for proofs where the parts stay shut.
pub >>=-eq-ok {κ ℓ} :
    {E : Type 0} {B : Type κ} {A : Type ℓ} (m : Result E B) (next : B → Result E A) {result : A}
    → (m >>= next) ≡ ok result
    → (value : B) × (m ≡ ok value) × (next value ≡ ok result)
>>=-eq-ok (err failure) next h = cc
>>=-eq-ok (ok value) next h = (value, refl, h)

pub ok_injective {ℓ} :
    {E : Type 0} {A : Type ℓ} {a b : A} → ◌≡◌ {A = Result E A} (ok a) (ok b) → a ≡ b
ok_injective h = cc
