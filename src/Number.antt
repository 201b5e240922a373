-- ===== src/Number.antt =====
-- JavaScript numbers, as far as the client uses them. The language's floating-point arithmetic is an
-- interface: the code's meaning is stated over any type of numbers with these operations.
pub mod Naturals
use new_a.Common.{ℕ, Bool, Option, Text}

pub record Arithmetic : Type 1 where
  pub Num : Type 0
  -- `Number(text)`; NaN is one of the values
  pub of_text : Text → Num
  pub add : Num → Num → Num
  pub sub : Num → Num → Num
  pub times : Num → Num → Num
  pub over : Num → Num → Num
  pub neg : Num → Num
  -- `Math.round`
  pub round : Num → Num
  -- `10 ** n`
  pub power_of_ten : ℕ → Num
  -- `Number.isFinite`
  pub is_finite : Num → Bool
  -- `value === 0`
  pub is_zero : Num → Bool
  -- the value as a natural number if `Number.isInteger(value) && value >= 0`
  pub natural : Num → Option ℕ
  pub zero_num : Num
  pub one_num : Num
  -- zero or NaN
  pub is_falsy : Num → Bool
