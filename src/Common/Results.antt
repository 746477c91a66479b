-- ===== src/Common/Results.antt =====
-- The result of code that may throw. `throws` stands for THROW_RTE and a failed VERIFY_RTE.
use mathlib.Core.Path.{◌≡◌, refl}
use mathlib.Core.Logic.{◌⊎◌, inl, inr}
use mathlib.Core.Bool.{Bool, true, false}

pub data Result {ℓ} (A : Type ℓ) : Type ℓ where
  ok : A → Result A
  throws : Result A

infixl 5 ◌>>=◌ ◌>>◌
abbrev pub ◌>>=◌ {ℓ κ} : {A : Type ℓ} {B : Type κ} → Result A → (A → Result B) → Result B
ok a >>= f = f a
throws >>= f = throws

abbrev pub ◌>>◌ {ℓ} : {B : Type ℓ} → Result (Unit {0}) → Result B → Result B
m >> k = m >>= λ _. k

-- VERIFY_RTE( b ) and VERIFY_RTE_MSG( b, ... ).
abbrev pub verify : Bool → Result (Unit {0})
verify true = ok tt
verify false = throws

pub Result-cases {ℓ} : {A : Type ℓ} (r : Result A) → (r ≡ throws) ⊎ ((a : A) × (r ≡ ok a))
Result-cases (ok a) = inr (a, refl)
Result-cases throws = inl refl
