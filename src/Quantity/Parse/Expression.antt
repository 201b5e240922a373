-- ===== src/Quantity/Parse/Expression.antt =====
-- From the text of a quantity of web/app.js to the value of the expression that it spells.
use new_a.Common.{
  returned, thrown, out_of_fuel, ◌>>=◌, true, List, [], Option, none, some, if◌then◌else◌, Text,
  is_nonempty, trim, strip, arith, ◌≡◌, ◌≢◌, Bool-cases, inl, inr,
}
use new_a.Quantity.{not_finite}
use new_a.Quantity.Settles.{bind-ne-out_of_fuel}
use new_a.Number.{Arithmetic}
use new_a.Quantity.Grammar.{Expr, tokens, value}
use new_a.Quantity.Evaluate.{evaluate_tokens}
use new_a.Quantity.Evaluate.Complete.{evaluate_tokens-tokens}
use new_a.Quantity.Evaluate.Sound.{evaluate_tokens-ne-out_of_fuel}
use new_a.Quantity.Lexer.{tokenize, parse_localized_number}
use new_a.Quantity.Lexer.Spelling.{
  Lexeme, AreSpelled, spell_all, tokens_of_all, tokenize-spell_all, tokenize-ne-out_of_fuel,
  parse_localized_number-ne-out_of_fuel,
}
use new_a.Quantity.Parse.{
  split_last, drop_last_char, is_quantity_expression, evaluate, round_quantity, parse_plain,
  parse_precision, parse_trimmed, parse_quantity,
}
use new_a.Quantity.Parse.Precision.{HasNoBracket, split_last-absent}

module _ (a : Arithmetic) where
  open a use {Num, is_finite}

  evaluate-ne-out_of_fuel : (text : Text) → evaluate a text ≢ out_of_fuel
  unfolding evaluate
  evaluate-ne-out_of_fuel text =
      bind-ne-out_of_fuel (tokenize a text) (evaluate_tokens a) (tokenize-ne-out_of_fuel a text)
        (evaluate_tokens-ne-out_of_fuel a)

  finite-ne-out_of_fuel :
      (v : Num) → (if is_finite v then returned v else thrown not_finite) ≢ out_of_fuel
  finite-ne-out_of_fuel v = ground arith

  parse_plain-ne-out_of_fuel : (text : Text) → parse_plain a text ≢ out_of_fuel
  unfolding parse_plain
  parse_plain-ne-out_of_fuel text = elim (Bool-cases (is_quantity_expression text)) [
    | inl formula ↦ rw formula (
        bind-ne-out_of_fuel (evaluate a text) _ (evaluate-ne-out_of_fuel text)
          finite-ne-out_of_fuel)
    | inr plain ↦ rw plain (
        bind-ne-out_of_fuel (parse_localized_number a text) _
          (parse_localized_number-ne-out_of_fuel a text) finite-ne-out_of_fuel)
  ]

  parse_precision-ne-out_of_fuel : (text : Text) → parse_precision a text ≢ out_of_fuel
  unfolding parse_precision
  parse_precision-ne-out_of_fuel text = ground arith

  rounded-ne-out_of_fuel :
      (before inside : Text)
      → (parse_precision a inside >>= λ decimals.
          parse_plain a (trim before) >>= λ v. returned (round_quantity a v decimals))
        ≢ out_of_fuel
  rounded-ne-out_of_fuel before inside =
      bind-ne-out_of_fuel (parse_precision a inside) _ (parse_precision-ne-out_of_fuel inside)
        λ decimals.
          bind-ne-out_of_fuel (parse_plain a (trim before)) _
            (parse_plain-ne-out_of_fuel (trim before)) λ v q. cc

  parse_trimmed-ne-out_of_fuel : (text : Text) → parse_trimmed a text ≢ out_of_fuel
  unfolding parse_trimmed
  parse_trimmed-ne-out_of_fuel text = split (split_last b'[' text)
    where
      close :
          (before after : Text) (o : Option Text)
          → (elim o [
            | none ↦ parse_plain a text
            | some inside ↦ parse_precision a inside >>= λ decimals.
                parse_plain a (trim before) >>= λ v. returned (round_quantity a v decimals)
          ])
            ≢ out_of_fuel
      close before after none = parse_plain-ne-out_of_fuel text
      close before after (some inside) = rounded-ne-out_of_fuel before inside

      split :
          (o : Option (Text × Text))
          → (elim o [
            | none ↦ parse_plain a text
            | some (before, after) ↦ elim (drop_last_char b']' after) [
              | none ↦ parse_plain a text
              | some inside ↦ parse_precision a inside >>= λ decimals.
                  parse_plain a (trim before) >>= λ v. returned (round_quantity a v decimals)
            ]
          ])
            ≢ out_of_fuel
      split none = parse_plain-ne-out_of_fuel text
      split (some (before, after)) = close before after (drop_last_char b']' after)

  -- The parser of quantities returns a number or throws on every text: the fuel that its loops are
  -- given never runs out.
  pub parse_quantity-ne-out_of_fuel : (raw : Text) → parse_quantity a raw ≢ out_of_fuel
  unfolding parse_quantity
  parse_quantity-ne-out_of_fuel raw = ground (arith, parse_trimmed-ne-out_of_fuel (trim raw))

  -- A quantity that spells an expression parses to the value of the expression: for a text without
  -- `[` that has an operator or a parenthesis and that, white space apart, spells the tokens of the
  -- expression `e`, the result is the value of `e` if it is finite, and otherwise the error of the
  -- evaluation or of the value that is not finite.
  pub parse_quantity_expression :
      (raw : Text) (ls : List Lexeme) (e : Expr Num)
      → is_nonempty (trim raw) ≡ true
      → HasNoBracket (trim raw)
      → is_quantity_expression (trim raw) ≡ true
      → ls ≢ []
      → AreSpelled ls
      → strip (trim raw) ≡ spell_all ls
      → tokens_of_all a ls ≡ returned (tokens e)
      → parse_quantity a raw
        ≡ (value a e >>= λ v. (if is_finite v then returned v else thrown not_finite))
  unfolding parse_quantity parse_trimmed parse_plain evaluate
  parse_quantity_expression raw ls e n b f ne h s t = rw (
    n,
    parse_trimmed,
    split_last-absent (trim raw) b,
    parse_plain,
    f,
    evaluate,
    tokenize-spell_all a (trim raw) ls ne h s,
    t,
    evaluate_tokens-tokens a e,
  )
