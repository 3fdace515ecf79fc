-- ===== src/Common/Outcome.antt =====
-- Kernel code that may call `panic`, which never returns.
use mathlib.Core.Path.{◌≡◌, refl}
use cse3320_proj1_ahmed_bahb.Common.{Bool, true, false}
use mathlib.Core.Logic.{◌⊎◌, inl, inr}

pub data Outcome {ℓ} (A : Type ℓ) : Type ℓ where
  ok : A → Outcome A
  panic : Outcome A

-- What follows a call runs only if the call did not panic.
infixl 5 ◌>>=◌
abbrev pub ◌>>=◌ {ℓ κ} : {A : Type ℓ} {B : Type κ} → Outcome A → (A → Outcome B) → Outcome B
call >>= k = elim call [ ok a ↦ k a | panic ↦ panic ]

-- A call that returns or panics, whose effect is written out in what follows it.
abbrev pub calling {ℓ} : {A : Type ℓ} → Bool → Outcome A → Outcome A
calling true m = m
calling false m = panic

-- To split on a result and keep the equation.
abbrev pub Outcome-cases {ℓ} : {A : Type ℓ} (m : Outcome A) → ((a : A) × (m ≡ ok a)) ⊎ (m ≡ panic)
Outcome-cases (ok a) = inl (a, refl)
Outcome-cases panic = inr refl
