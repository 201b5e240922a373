-- ===== src/Quantity/Lexer.antt =====
-- `parseSourceDataLocalizedNumber` and `tokenizeSourceDataQuantityExpression` (web/app.js).
pub mod Spelling
use new_a.Common.{
  Outcome, returned, thrown, out_of_fuel, ◌>>=◌, bind_assoc, bind-eq-returned, ℕ, zero, suc, ◌+◌,
  Bool, true, false, ◌&&◌, ◌||◌, List, [], ◌∷◌, length, take_while, drop_while, leb, ◌==◌,
  if◌then◌else◌, Text, is_nonempty, is_digit, trim, strip,
}
use new_a.Quantity.{
  Result, empty_expression, invalid_number, invalid_character, Token, plus, minus, mul, div, lparen,
  rparen, number,
}
use new_a.Number.{Arithmetic}

-- `text.replace(",", ".")`: the first comma only.
unfoldable pub replace_comma : Text → Text
replace_comma [] = []
replace_comma (c ∷ cs) = if c == b',' then b'.' ∷ cs else c ∷ replace_comma cs

-- `/\d|,/.test(ch)`.
unfoldable pub is_number_char : ℕ → Bool
is_number_char c = is_digit c || c == b','

module _ (a : Arithmetic) where
  open a use {Num, of_text, is_finite, zero_num}

  unfoldable pub parse_localized_number : Text → Result Num
  unfolding trim strip replace_comma
  parse_localized_number raw =
      let normalized = replace_comma (strip (trim raw)) in
      let v = of_text normalized in
      if is_nonempty normalized
      then if is_finite v then returned v else thrown (invalid_number raw)
      else returned zero_num

  -- The `for` loop over the normalized text; each round takes one token and a unit of fuel.
  unfoldable pub tokenize_loop : ℕ → Text → Result (List (Token Num))
  unfolding is_number_char
  tokenize_loop f [] = returned []
  tokenize_loop zero (c ∷ cs) = out_of_fuel
  tokenize_loop (suc f) (c ∷ cs) =
      let rest = tokenize_loop f cs in
      let numeral = do
        n ← parse_localized_number (c ∷ take_while is_number_char cs)
        ts ← tokenize_loop f (drop_while is_number_char cs)
        returned (number n ∷ ts)
      in if c == b'+'
        then (do ts ← rest; returned (plus ∷ ts))
        else if c == b'-'
        then (do ts ← rest; returned (minus ∷ ts))
        else if c == b'*' || c == b'.'
        then (do ts ← rest; returned (mul ∷ ts))
        else if c == b'/' || c == b':'
        then (do ts ← rest; returned (div ∷ ts))
        else if c == b'('
        then (do ts ← rest; returned (lparen ∷ ts))
        else if c == b')'
        then (do ts ← rest; returned (rparen ∷ ts))
        else if is_number_char c
        then numeral
        else thrown (invalid_character c)

  unfoldable pub tokenize : Text → Result (List (Token Num))
  unfolding tokenize_loop trim strip
  tokenize text =
      let normalized = strip (trim text) in
      if is_nonempty normalized
      then tokenize_loop (length normalized) normalized
      else thrown empty_expression
