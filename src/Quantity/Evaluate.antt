-- ===== src/Quantity/Evaluate.antt =====
-- `evaluateSourceDataQuantityExpression` (web/app.js) on the tokens. The variable `position` of its
-- closures is the list of the tokens that are left. Every call costs a unit of fuel.
pub mod Complete
pub mod Sound
use new_a.Common.{
  Outcome, returned, thrown, out_of_fuel, ◌>>=◌, bind_assoc, bind-eq-returned, ℕ, zero, suc, ◌+◌,
  ◌*◌, List, [], ◌∷◌, length, Bool, true, false, if◌then◌else◌,
}
use new_a.Quantity.{
  Result, unexpected_end, missing_paren, unexpected_token, trailing_input, Token, plus, minus, mul,
  div, lparen, rparen, number,
}
use new_a.Number.{Arithmetic}
use new_a.Quantity.Grammar.{divide}

-- `if (position >= tokens.length || tokens[position].kind !== "rparen") throw …; position += 1`.
unfoldable pub close_paren : {N : Type 0} → N → List (Token N) → Result (N × List (Token N))
close_paren v (rparen ∷ ts) = returned (v, ts)
close_paren v _ = thrown missing_paren

module _ (a : Arithmetic) where
  open a use {Num, add, sub, times, neg}

  abbrev pub Step : Type 0
  Step = Result (Num × List (Token Num))

  unfoldable mutual
    pub parse_expression : ℕ → List (Token Num) → Step
    parse_expression zero ts = out_of_fuel
    parse_expression (suc f) ts = do (v, rest) ← parse_term f ts; expression_loop f v rest

    -- the `while` loop of `parseExpression`
    pub expression_loop : ℕ → Num → List (Token Num) → Step
    expression_loop zero v ts = out_of_fuel
    expression_loop (suc f) v (plus ∷ ts) = do
      (w, rest) ← parse_term f ts
      expression_loop f (add v w) rest
    expression_loop (suc f) v (minus ∷ ts) = do
      (w, rest) ← parse_term f ts
      expression_loop f (sub v w) rest
    expression_loop (suc f) v ts = returned (v, ts)

    pub parse_term : ℕ → List (Token Num) → Step
    parse_term zero ts = out_of_fuel
    parse_term (suc f) ts = do (v, rest) ← parse_factor f ts; term_loop f v rest

    -- the `while` loop of `parseTerm`
    pub term_loop : ℕ → Num → List (Token Num) → Step
    term_loop zero v ts = out_of_fuel
    term_loop (suc f) v (mul ∷ ts) = do (w, rest) ← parse_factor f ts; term_loop f (times v w) rest
    term_loop (suc f) v (div ∷ ts) = do
      (w, rest) ← parse_factor f ts
      q ← divide a v w
      term_loop f q rest
    term_loop (suc f) v ts = returned (v, ts)

    pub parse_factor : ℕ → List (Token Num) → Step
    parse_factor zero ts = out_of_fuel
    parse_factor (suc f) [] = thrown unexpected_end
    parse_factor (suc f) (plus ∷ ts) = parse_factor f ts
    parse_factor (suc f) (minus ∷ ts) = do (v, rest) ← parse_factor f ts; returned (neg v, rest)
    parse_factor (suc f) (lparen ∷ ts) = do (v, rest) ← parse_expression f ts; close_paren v rest
    parse_factor (suc f) (number n ∷ ts) = returned (n, ts)
    parse_factor (suc f) _ = thrown unexpected_token

  -- `if (position !== tokens.length) throw …; return value`.
  unfoldable pub finish : Num → List (Token Num) → Result Num
  finish v [] = returned v
  finish v (t ∷ ts) = thrown trailing_input

  unfoldable pub evaluate_tokens : List (Token Num) → Result Num
  unfolding parse_expression finish
  evaluate_tokens ts = do (v, rest) ← parse_expression (4 * length ts + 4) ts; finish v rest
