-- ===== src/Common/Outcomes.antt =====
-- How a call of a JavaScript function ends: it returns a value or throws. `out_of_fuel` has no
-- counterpart in the program; it stands for a loop that its bound cuts off.
use mathlib.Core.Path.{◌≡◌, refl}

pub data Outcome {ℓ} (E : Type 0) (A : Type ℓ) : Type ℓ where
  out_of_fuel : Outcome E A
  thrown : E → Outcome E A
  returned : A → Outcome E A

module _ {ℓ κ} {E : Type 0} {A : Type ℓ} {B : Type κ} where
  infixl 5 ◌>>=◌
  abbrev pub ◌>>=◌ : Outcome E A → (A → Outcome E B) → Outcome E B
  out_of_fuel >>= next = out_of_fuel
  thrown problem >>= next = thrown problem
  returned value >>= next = next value

  pub bind-eq-returned :
      (first : Outcome E A) (next : A → Outcome E B) {result : B}
      → (first >>= next) ≡ returned result
      → (value : A) × (first ≡ returned value) × (next value ≡ returned result)
  bind-eq-returned out_of_fuel next e = cc
  bind-eq-returned (thrown problem) next e = cc
  bind-eq-returned (returned value) next e = (value, refl, e)

pub bind_assoc {ℓ κ μ} :
    {E : Type 0} {A : Type ℓ} {B : Type κ} {C : Type μ} (first : Outcome E A)
    (next : A → Outcome E B) (last : B → Outcome E C)
    → ((first >>= next) >>= last) ≡ (first >>= λ value. next value >>= last)
bind_assoc out_of_fuel next last = refl
bind_assoc (thrown problem) next last = refl
bind_assoc (returned value) next last = refl
