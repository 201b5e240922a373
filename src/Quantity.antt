-- ===== src/Quantity.antt =====
-- Quantities of source data lines: numbers with a decimal comma and arithmetic expressions over them
-- (`tokenizeSourceDataQuantityExpression`, `evaluateSourceDataQuantityExpression` and
-- `parseSourceDataQuantity` of web/app.js). This module has what its children share.
pub mod Settles
pub mod Grammar
pub mod Evaluate
pub mod Lexer
pub mod Parse
mod Tests
use new_a.Common.{
  Outcome, returned, thrown, out_of_fuel, ◌>>=◌, bind_assoc, bind-eq-returned, ℕ, ◌≡◌, refl, Text,
}

-- The messages of the errors that the program throws, with the values that they quote.
pub data Error : Type 0 where
  empty_expression unexpected_end division_by_zero missing_paren unexpected_token : Error
  trailing_input empty_precision not_finite : Error
  invalid_number invalid_precision : Text → Error
  invalid_character : ℕ → Error

abbrev pub Result {ℓ} : Type ℓ → Type ℓ
Result A = Outcome Error A

-- `token.kind`, and the value of a number.
pub data Token (N : Type 0) : Type 0 where
  plus minus mul div lparen rparen : Token N
  number : N → Token N
