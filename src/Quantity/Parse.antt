-- ===== src/Quantity/Parse.antt =====
-- `isSourceDataQuantityExpression`, `roundSourceDataQuantity` and `parseSourceDataQuantity`
-- (web/app.js).
pub mod Precision
pub mod Expression
use new_a.Common.{
  Outcome, returned, thrown, out_of_fuel, ◌>>=◌, bind_assoc, bind-eq-returned, ℕ, Bool, true, false,
  ◌||◌, List, [], ◌∷◌, Option, none, some, ◌==◌, if◌then◌else◌, Text, is_nonempty, trim,
}
use new_a.Quantity.{Result, empty_precision, invalid_precision, not_finite}
use new_a.Number.{Arithmetic}
use new_a.Quantity.Lexer.{parse_localized_number, tokenize}
use new_a.Quantity.Evaluate.{evaluate_tokens}

-- `text.lastIndexOf(b)` together with the two slices that the code takes there.
unfoldable pub split_last : ℕ → Text → Option (Text × Text)
split_last b [] = none
split_last b (c ∷ cs) = elim (split_last b cs) [
  | some (before, after) ↦ some (c ∷ before, after)
  | none ↦ if c == b then some ([], cs) else none
]

-- `text.endsWith(b)`, and `text.slice(0, -1)` if it does.
unfoldable pub drop_last_char : ℕ → Text → Option Text
drop_last_char b [] = none
drop_last_char b (c ∷ []) = if c == b then some [] else none
drop_last_char b (c ∷ d ∷ ds) = elim (drop_last_char b (d ∷ ds)) [
  | some s ↦ some (c ∷ s)
  | none ↦ none
]

-- `expr.includes("(") || /[+\-*/.:]/.test(expr)`.
unfoldable pub is_quantity_expression : Text → Bool
is_quantity_expression [] = false
is_quantity_expression (c ∷ cs) =
    c == b'('
    || c == b'+'
    || c == b'-'
    || c == b'*'
    || c == b'/'
    || c == b'.'
    || c == b':'
    || is_quantity_expression cs

module _ (a : Arithmetic) where
  open a use {Num, of_text, times, over, round, power_of_ten, is_finite, natural, zero_num}

  unfoldable pub round_quantity : Num → ℕ → Num
  round_quantity v decimals = over (round (times v (power_of_ten decimals))) (power_of_ten decimals)

  unfoldable pub evaluate : Text → Result Num
  unfolding tokenize evaluate_tokens
  evaluate text = do ts ← tokenize a text; evaluate_tokens a ts

  -- `if (isSourceDataQuantityExpression(expr)) …; if (!Number.isFinite(value)) throw …`.
  unfoldable pub parse_plain : Text → Result Num
  unfolding is_quantity_expression evaluate parse_localized_number
  parse_plain text = do
    v ← (if is_quantity_expression text then evaluate text else parse_localized_number a text)
    (if is_finite v then returned v else thrown not_finite)

  -- The number of decimals in the brackets.
  unfoldable pub parse_precision : Text → Result ℕ
  unfolding trim
  parse_precision inside =
      let text = trim inside in
      if is_nonempty text
      then elim (natural (of_text text)) [
        | some decimals ↦ returned decimals
        | none ↦ thrown (invalid_precision text)
      ]
      else thrown empty_precision

  -- The body of the function on a text that is trimmed and not empty.
  unfoldable pub parse_trimmed : Text → Result Num
  unfolding split_last drop_last_char parse_precision parse_plain round_quantity trim
  parse_trimmed text = elim (split_last b'[' text) [
    | none ↦ parse_plain text
    | some (before, after) ↦ elim (drop_last_char b']' after) [
      | none ↦ parse_plain text
      | some inside ↦ do
        decimals ← parse_precision inside
        v ← parse_plain (trim before)
        returned (round_quantity v decimals)
    ]
  ]

  unfoldable pub parse_quantity : Text → Result Num
  unfolding parse_trimmed trim
  parse_quantity raw =
      let text = trim raw in if is_nonempty text then parse_trimmed text else returned zero_num
