-- ===== src/Common/Decimal.antt =====
-- Decimal numerals of natural numbers: `String(n)`, and the value of a text of digits.
use Prim.Native.Nat.{ℕ, zero, suc, ◌+◌, ◌-◌, ◌*◌, ◌/◌, ◌%◌, ◌<◌}
use mathlib.Core.Path.{◌≡◌, refl}
use mathlib.Core.Logic.{inl, inr}
use mathlib.Core.Bool.{Bool, true, ◌&&◌}
use mathlib.Core.List.{List, [], ◌∷◌, ◌++◌}
use native.Mathlib.Omega.{arith}
use new_a.Common.Tests.{leb, ltb, Bool-cases, if◌then◌else◌}
use new_a.Common.Lists.{AllTrue}
use new_a.Common.Strings.{Text, is_nonempty}

abbrev pub is_digit : ℕ → Bool
is_digit c = leb b'0' c && leb c b'9'

digits_fuel : ℕ → ℕ → Text
digits_fuel zero n = []
digits_fuel (suc f) n =
    let rest = digits_fuel f (n / 10) in
    if ltb n 10 then (b'0' + n) ∷ [] else rest ++ (b'0' + n % 10) ∷ []

-- A number has fewer digits than units, so the fuel suffices.
unfoldable pub digits : ℕ → Text
unfolding digits_fuel
digits n = digits_fuel (suc n) n

-- The value of the digits, after the number read so far.
unfoldable pub value_from : ℕ → Text → ℕ
value_from n [] = n
value_from n (c ∷ cs) = value_from (n * 10 + (c - b'0')) cs

unfoldable pub decimal_value : Text → ℕ
unfolding value_from
decimal_value s = value_from 0 s

value_from-append : (n : ℕ) (s t : Text) → value_from n (s ++ t) ≡ value_from (value_from n s) t
unfolding value_from
value_from-append n [] t = refl
value_from-append n (c ∷ s) t = value_from-append (n * 10 + (c - b'0')) s t

value-digits_fuel : (f n : ℕ) → n < f → value_from 0 (digits_fuel f n) ≡ n
unfolding digits_fuel value_from
value-digits_fuel zero n h = absurd (omega arith)
value-digits_fuel (suc f) n h = ground (
  arith,
  value_from-append 0 (digits_fuel f (n / 10)) ((b'0' + n % 10) ∷ []),
  value-digits_fuel f (n / 10),
)

-- Reading a printed number gives the number.
pub decimal_value-digits : (n : ℕ) → decimal_value (digits n) ≡ n
unfolding decimal_value digits
decimal_value-digits n = value-digits_fuel (suc n) n (omega arith)

AllTrue-append {ℓ} :
    {A : Type ℓ} (p : A → Bool) (xs ys : List A)
    → AllTrue p xs
    → AllTrue p ys
    → AllTrue p (xs ++ ys)
AllTrue-append p [] ys h k = k
AllTrue-append p (x ∷ xs) ys h k = (h.0, AllTrue-append p xs ys h.1 k)

digits_fuel-AllTrue : (f n : ℕ) → AllTrue is_digit (digits_fuel f n)
unfolding digits_fuel
digits_fuel-AllTrue zero n = tt
digits_fuel-AllTrue (suc f) n = elim (Bool-cases (ltb n 10)) [
  | inl small ↦ rw small (ground arith, tt)
  | inr large ↦ rw large (
      AllTrue-append is_digit (digits_fuel f (n / 10)) ((b'0' + n % 10) ∷ [])
        (digits_fuel-AllTrue f (n / 10)) (ground arith, tt))
]

pub digits-AllTrue : (n : ℕ) → AllTrue is_digit (digits n)
unfolding digits
digits-AllTrue n = digits_fuel-AllTrue (suc n) n

append-is_nonempty : (s : Text) (c : ℕ) → is_nonempty (s ++ c ∷ []) ≡ true
append-is_nonempty [] c = refl
append-is_nonempty (d ∷ s) c = refl

pub digits-is_nonempty : (n : ℕ) → is_nonempty (digits n) ≡ true
unfolding digits digits_fuel
digits-is_nonempty n = elim (Bool-cases (ltb n 10)) [
  | inl small ↦ rw small refl
  | inr large ↦ rw large (append-is_nonempty (digits_fuel n (n / 10)) (b'0' + n % 10))
]
