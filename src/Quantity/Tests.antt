-- ===== src/Quantity/Tests.antt =====
-- Runs of the quantity parser of web/app.js over the natural numbers, with a value for everything
-- else, and its theorems at concrete inputs.
use new_a.Common.{
  is_nonempty, returned, thrown, out_of_fuel, ◌>>=◌, ℕ, List, [], ◌∷◌, ◌++◌, Option, some, ◌≡◌, ◌≢◌,
  ◌↔◌, refl, arith, if◌then◌else◌, codes, trim, strip, is_space,
}
use new_a.Quantity
use new_a.Quantity.{Result, Token, plus, minus, mul, div, lparen, rparen, number}
use new_a.Number.Naturals.{naturals}
use new_a.Quantity.Grammar.{
  Expr, expr, no_sums, plus_term, Term, term, no_products, times_factor, literal, parens, tokens,
  value,
}
use new_a.Quantity.Evaluate.{evaluate_tokens, close_paren}
use new_a.Quantity.Evaluate.Complete.{evaluate_tokens-tokens}
use new_a.Quantity.Evaluate.Sound.{evaluate_tokens-eq-returned_iff}
use new_a.Quantity.Lexer.{parse_localized_number, tokenize, is_number_char}
use new_a.Quantity.Lexer.Spelling.{
  Lexeme, numeral, star, open_paren, closing_paren, plus_sign, AreSpelled, tokens_of_all,
  tokenize-spell_all,
}
use new_a.Quantity.Parse.{parse_quantity, is_quantity_expression}
use new_a.Quantity.Parse.Precision.{rounded_to, parse_quantity_precision}
use new_a.Quantity.Parse.Expression.{parse_quantity_expression, parse_quantity-ne-out_of_fuel}

value_of_formula : parse_quantity naturals (codes " 2*(3 + 4) - 10:5 ") ≡ returned (some 12)
unfolding parse_quantity is_space close_paren
value_of_formula = refl

value_with_precision : parse_quantity naturals (codes "12 . 3[ 2 ]") ≡ returned (some 36)
unfolding parse_quantity is_space close_paren
value_with_precision = refl

errors :
    (parse_quantity naturals (codes "2/(1-1)") ≡ thrown Quantity.division_by_zero)
    × (parse_quantity naturals (codes "2*(1") ≡ thrown Quantity.missing_paren)
    × (parse_quantity naturals (codes "2+x") ≡ thrown (Quantity.invalid_character b'x'))
    × (parse_quantity naturals (codes "7[]") ≡ thrown Quantity.empty_precision)
    × (parse_quantity naturals (codes "  ") ≡ returned (some 0))
unfolding parse_quantity is_space close_paren
errors = (refl, refl, refl, refl, refl)

abbrev lit : ℕ → Term (Option ℕ)
lit n = term (literal (some n)) no_products

-- 2 * (3 + 4)
abbrev formula : Expr (Option ℕ)
formula =
    expr
      (term (literal (some 2))
        (times_factor (parens (expr (lit 3) (plus_term (lit 4) no_sums))) no_products))
      no_sums

abbrev lexemes : List Lexeme
lexemes =
    numeral b'2' []
    ∷ star
    ∷ open_paren
    ∷ numeral b'3' []
    ∷ plus_sign
    ∷ numeral b'4' []
    ∷ closing_paren
    ∷ []

evaluate_tokens-tokens_example : evaluate_tokens naturals (tokens formula) ≡ value naturals formula
evaluate_tokens-tokens_example = evaluate_tokens-tokens naturals formula

evaluate_tokens-eq-returned_iff_example :
    (evaluate_tokens naturals (number (some 1) ∷ plus ∷ []) ≡ returned (some 1)) ↔ (
      (e : Expr (Option ℕ)) × (number (some 1) ∷ plus ∷ [] ≡ tokens e)
      × (value naturals e ≡ returned (some 1)))
evaluate_tokens-eq-returned_iff_example =
    evaluate_tokens-eq-returned_iff naturals (number (some 1) ∷ plus ∷ []) (some 1)

spelled : AreSpelled lexemes
unfolding is_number_char
spelled = (refl, tt, tt, (refl, tt, tt, (refl, tt, tt, tt)))

lexemes_read : tokens_of_all naturals lexemes ≡ returned (tokens formula)
unfolding tokens is_space parse_localized_number
lexemes_read = refl

tokenize-spell_all_example : tokenize naturals (codes "2 * (3+ 4)") ≡ tokens_of_all naturals lexemes
tokenize-spell_all_example =
    tokenize-spell_all naturals (codes "2 * (3+ 4)") lexemes (λ q. cc) spelled
      (unfold strip is_space in refl)

parse_quantity_precision_example :
    parse_quantity naturals (codes "7*3 " ++ b'[' ∷ (codes " 1" ++ b']' ∷ [])) ≡ (
      if is_nonempty (trim (codes " 1"))
      then rounded_to naturals
          (trim (codes " 1"))
          (parse_quantity naturals (codes "7*3 "))
          (naturals.natural (naturals.of_text (trim (codes " 1"))))
      else thrown Quantity.empty_precision)
unfolding trim is_space
parse_quantity_precision_example =
    parse_quantity_precision naturals (codes "7*3 ") (codes " 1") refl
      (refl, (refl, (refl, (refl, tt)))) (refl, (refl, tt))

parse_quantity-ne-out_of_fuel_example : parse_quantity naturals (codes "1+(2") ≢ out_of_fuel
parse_quantity-ne-out_of_fuel_example = parse_quantity-ne-out_of_fuel naturals (codes "1+(2")

parse_quantity_expression_example : parse_quantity naturals (codes "2 * (3+ 4)") ≡ (
    value naturals formula >>= λ v.
    (if naturals.is_finite v then returned v else thrown Quantity.not_finite))
unfolding is_space is_quantity_expression trim
parse_quantity_expression_example =
    parse_quantity_expression naturals (codes "2 * (3+ 4)") lexemes formula refl (ground arith) refl
      (λ q. cc) spelled (unfold strip in refl) lexemes_read
