-- ===== src/Result.antt =====
-- The result of code that can go wrong: an access out of bounds or through `NULL`, a read of a value
-- that was never set, a division by zero, a copy between
-- strings that overlap, a thread that waits for a lock
-- which it holds itself, or a loop of the model that runs out of fuel.
use pekar_drive.Common.{◌≡◌, refl, ◌⊎◌, inl, inr, arith}

pub data Fault : Type 0 where
  out_of_bounds null_pointer uninitialised deadlock division_by_zero overlap out_of_fuel : Fault

pub data Result {ℓ} (A : Type ℓ) : Type ℓ where
  err : Fault → Result A
  ok : A → Result A

infixl 5 ◌>>=◌
abbrev pub ◌>>=◌ {ℓ κ} : {A : Type ℓ} {B : Type κ} → Result A → (A → Result B) → Result B
err fault >>= rest = err fault
ok a >>= rest = rest a

-- Inversion of a chain that succeeds.
pub >>=-eq-ok {ℓ κ} :
    {A : Type ℓ} {B : Type κ} (r : Result A) (rest : A → Result B) {b : B}
    → (r >>= rest) ≡ ok b
    → (a : A) × (r ≡ ok a) × (rest a ≡ ok b)
>>=-eq-ok (err fault) rest h = absurd (ground arith)
>>=-eq-ok (ok a) rest h = (a, refl, h)

pub ok-injective {ℓ} : {A : Type ℓ} {a b : A} → ok a ≡ ok b → a ≡ b
ok-injective h = cc

pub Result-cases {ℓ} :
    {A : Type ℓ} (r : Result A) → ((a : A) × (r ≡ ok a)) ⊎ ((e : Fault) × (r ≡ err e))
Result-cases (ok a) = inl (a, refl)
Result-cases (err e) = inr (e, refl)
