-- ===== src/Quantity/Settles.antt =====
-- Postconditions of the runs of the quantity parser (web/app.js), which has errors and, in the model,
-- fuel.
use new_a.Common.{returned, thrown, out_of_fuel, ◌>>=◌, ◌≡◌, ◌≢◌, refl}
use new_a.Quantity
use new_a.Quantity.{Result}

-- A run settles when it throws, or returns a value of which `P` holds; it never runs out of fuel.
pub data Settles {A : Type 0} (P : A → Type 0) : Result A → Type 0 where
  returns : (x : A) → P x → Settles P (returned x)
  throws : {e : Quantity.Error} → Settles P (thrown e)

module _ {A : Type 0} {P : A → Type 0} where
  pub Settles-ne-out_of_fuel : {r : Result A} → Settles P r → r ≢ out_of_fuel
  Settles-ne-out_of_fuel (returns x h) = cc
  Settles-ne-out_of_fuel throws = cc

  pub Settles-mono :
      {Q : A → Type 0} {r : Result A} → Settles P r → ((x : A) → P x → Q x) → Settles Q r
  Settles-mono (returns x h) k = returns x (k x h)
  Settles-mono throws k = throws

  -- The rule for a `do` block.
  pub Settles-bind :
      {B : Type 0} {Q : B → Type 0} {r : Result A} {k : A → Result B}
      → Settles P r
      → ((x : A) → P x → Settles Q (k x))
      → Settles Q (r >>= k)
  Settles-bind (returns x h) next = next x h
  Settles-bind throws next = throws

returned-injective : {A : Type 0} (x y : A) → Path (Result A) (returned x) (returned y) → x ≡ y
returned-injective x y h = cc

pub Settles-self : {A : Type 0} (r : Result A) → r ≢ out_of_fuel → Settles (λ x. r ≡ returned x) r
Settles-self (returned x) h = returns x refl
Settles-self (thrown e) h = throws
Settles-self out_of_fuel h = absurd (h refl)

pub settled :
    {A : Type 0} {P : A → Type 0} (r : Result A) (v : A) → Settles P r → r ≡ returned v → P v
settled {P = P} r v (returns x h) e = rw (returned-injective x v e) at h
settled r v throws e = cc

pub bind-ne-out_of_fuel :
    {A B : Type 0} (r : Result A) (k : A → Result B)
    → r ≢ out_of_fuel
    → ((x : A) → k x ≢ out_of_fuel)
    → (r >>= k) ≢ out_of_fuel
bind-ne-out_of_fuel (returned x) k h g = g x
bind-ne-out_of_fuel (thrown e) k h g = λ q. cc
bind-ne-out_of_fuel out_of_fuel k h g = absurd (h refl)
