-- ===== src/Quantity/Evaluate/Complete.antt =====
-- The evaluator of web/app.js on the tokens of an expression.
use new_a.Common.{
  returned, thrown, out_of_fuel, ◌>>=◌, bind_assoc, ℕ, zero, suc, ◌+◌, ◌*◌, ◌<◌, List, [], ◌∷◌,
  ◌++◌, length, length-append, append_assoc, append-nil, ◌≡◌, refl, ◌∙◌, arith,
}
use new_a.Quantity.{Result, Token, plus, minus, mul, div, rparen, number}
use new_a.Number.{Arithmetic}
use new_a.Quantity.Grammar.{
  Expr, expr, Sums, no_sums, plus_term, minus_term, Term, term, Products, no_products, times_factor,
  over_factor, Factor, literal, positive, negative, parens, tokens, tokens_of_sums, tokens_of_term,
  tokens_of_products, tokens_of_factor, value, value_of_sums, value_of_term, value_of_products,
  value_of_factor,
}
use new_a.Quantity.Evaluate.{
  close_paren, parse_expression, expression_loop, parse_term, term_loop, parse_factor, finish,
  evaluate_tokens,
}

-- No operator of a product, or of a sum, stands in front of these tokens.
abbrev EndsProduct : {N : Type 0} → List (Token N) → Type 0
EndsProduct (mul ∷ ts) = ⊥
EndsProduct (div ∷ ts) = ⊥
EndsProduct _ = Unit {0}

abbrev EndsSum : {N : Type 0} → List (Token N) → Type 0
EndsSum (mul ∷ ts) = ⊥
EndsSum (div ∷ ts) = ⊥
EndsSum (plus ∷ ts) = ⊥
EndsSum (minus ∷ ts) = ⊥
EndsSum _ = Unit {0}

EndsProduct-sums :
    {N : Type 0} (s : Sums N) (rest : List (Token N))
    → EndsSum rest
    → EndsProduct (tokens_of_sums s ++ rest)
unfolding tokens_of_sums
EndsProduct-sums no_sums [] h = tt
EndsProduct-sums no_sums (mul ∷ ts) h = absurd h
EndsProduct-sums no_sums (div ∷ ts) h = absurd h
EndsProduct-sums no_sums (number n ∷ ts) h = tt
EndsProduct-sums no_sums (_ ∷ ts) h = tt
EndsProduct-sums (plus_term t s) rest h = tt
EndsProduct-sums (minus_term t s) rest h = tt

length-append_tokens :
    {N : Type 0} (xs ys : List (Token N)) → length (xs ++ ys) ≡ length xs + length ys
length-append_tokens = length-append

ruleset lengths = (arith, length-append_tokens)

module _ (a : Arithmetic) where
  open a use {Num}

  term_loop_stop :
      (f : ℕ) (v : Num) (ts : List (Token Num))
      → EndsProduct ts
      → term_loop a (suc f) v ts ≡ returned (v, ts)
  unfolding term_loop
  term_loop_stop f v [] h = refl
  term_loop_stop f v (mul ∷ ts) h = absurd h
  term_loop_stop f v (div ∷ ts) h = absurd h
  term_loop_stop f v (number n ∷ ts) h = refl
  term_loop_stop f v (_ ∷ ts) h = refl

  expression_loop_stop :
      (f : ℕ) (v : Num) (ts : List (Token Num))
      → EndsSum ts
      → expression_loop a (suc f) v ts ≡ returned (v, ts)
  unfolding expression_loop
  expression_loop_stop f v [] h = refl
  expression_loop_stop f v (plus ∷ ts) h = absurd h
  expression_loop_stop f v (minus ∷ ts) h = absurd h
  expression_loop_stop f v (mul ∷ ts) h = absurd h
  expression_loop_stop f v (div ∷ ts) h = absurd h
  expression_loop_stop f v (number n ∷ ts) h = refl
  expression_loop_stop f v (_ ∷ ts) h = refl

  mutual
    unfolding parse_expression value tokens close_paren

    parse_expression_complete :
        (e : Expr Num) (rest : List (Token Num)) (f : ℕ)
        → EndsSum rest
        → 4 * length (tokens e) + 2 < f
        → parse_expression a f (tokens e ++ rest) ≡ (value a e >>= λ v. returned (v, rest))
    parse_expression_complete (expr t s) rest zero k h = absurd (omega arith)
    parse_expression_complete (expr t s) rest (suc f) k h = simp (
      append_assoc,
      bind_assoc,
      parse_term_complete t (tokens_of_sums s ++ rest) f (EndsProduct-sums s rest k)
          (omega lengths),
      λ (v : Num). expression_loop_complete s v rest f k (omega lengths),
    )

    expression_loop_complete :
        (s : Sums Num) (v : Num) (rest : List (Token Num)) (f : ℕ)
        → EndsSum rest
        → 4 * length (tokens_of_sums s) < f
        → expression_loop a f v (tokens_of_sums s ++ rest)
          ≡ (value_of_sums a s v >>= λ w. returned (w, rest))
    expression_loop_complete s v rest zero k h = absurd (omega arith)
    expression_loop_complete no_sums v rest (suc f) k h = expression_loop_stop f v rest k
    expression_loop_complete (plus_term t s) v rest (suc f) k h = simp (
      append_assoc,
      bind_assoc,
      parse_term_complete t (tokens_of_sums s ++ rest) f (EndsProduct-sums s rest k)
          (omega lengths),
      λ (w : Num). expression_loop_complete s w rest f k (omega lengths),
    )
    expression_loop_complete (minus_term t s) v rest (suc f) k h = simp (
      append_assoc,
      bind_assoc,
      parse_term_complete t (tokens_of_sums s ++ rest) f (EndsProduct-sums s rest k)
          (omega lengths),
      λ (w : Num). expression_loop_complete s w rest f k (omega lengths),
    )

    parse_term_complete :
        (t : Term Num) (rest : List (Token Num)) (f : ℕ)
        → EndsProduct rest
        → 4 * length (tokens_of_term t) + 1 < f
        → parse_term a f (tokens_of_term t ++ rest)
          ≡ (value_of_term a t >>= λ v. returned (v, rest))
    parse_term_complete (term x p) rest zero k h = absurd (omega arith)
    parse_term_complete (term x p) rest (suc f) k h = simp (
      append_assoc,
      bind_assoc,
      parse_factor_complete x (tokens_of_products p ++ rest) f (omega lengths),
      λ (v : Num). term_loop_complete p v rest f k (omega lengths),
    )

    term_loop_complete :
        (p : Products Num) (v : Num) (rest : List (Token Num)) (f : ℕ)
        → EndsProduct rest
        → 4 * length (tokens_of_products p) < f
        → term_loop a f v (tokens_of_products p ++ rest)
          ≡ (value_of_products a p v >>= λ w. returned (w, rest))
    term_loop_complete p v rest zero k h = absurd (omega arith)
    term_loop_complete no_products v rest (suc f) k h = term_loop_stop f v rest k
    term_loop_complete (times_factor x p) v rest (suc f) k h = simp (
      append_assoc,
      bind_assoc,
      parse_factor_complete x (tokens_of_products p ++ rest) f (omega lengths),
      λ (w : Num). term_loop_complete p w rest f k (omega lengths),
    )
    term_loop_complete (over_factor x p) v rest (suc f) k h = simp (
      append_assoc,
      bind_assoc,
      parse_factor_complete x (tokens_of_products p ++ rest) f (omega lengths),
      λ (w : Num). term_loop_complete p w rest f k (omega lengths),
    )

    parse_factor_complete :
        (x : Factor Num) (rest : List (Token Num)) (f : ℕ)
        → 4 * length (tokens_of_factor x) < f
        → parse_factor a f (tokens_of_factor x ++ rest)
          ≡ (value_of_factor a x >>= λ v. returned (v, rest))
    parse_factor_complete x rest zero h = absurd (omega arith)
    parse_factor_complete (literal n) rest (suc f) h = refl
    parse_factor_complete (positive x) rest (suc f) h =
        parse_factor_complete x rest f (omega lengths)
    parse_factor_complete (negative x) rest (suc f) h =
        simp (bind_assoc, parse_factor_complete x rest f (omega lengths))
    parse_factor_complete (parens e) rest (suc f) h =
        simp (
          append_assoc,
          bind_assoc,
          parse_expression_complete e (rparen ∷ rest) f tt (omega lengths),
        )

  -- The evaluator returns the value of every expression: on the tokens of a syntax tree its result
  -- is the value of the tree, or the division by zero that the tree meets first, whatever the nesting
  -- of signs, products, sums and parentheses.
  pub evaluate_tokens-tokens : (e : Expr Num) → evaluate_tokens a (tokens e) ≡ value a e
  unfolding evaluate_tokens
  evaluate_tokens-tokens e =
      let whole = parse_expression_complete e [] (4 * length (tokens e) + 4) tt (omega arith) in
      let plain = rw (append-nil (tokens e)) at whole in
      rw plain (
        bind_assoc (value a e) (λ v. returned (v, [])) (λ (v, rest). finish a v rest)
        ∙ finished (value a e))
    where
      finished : (r : Result Num) → (r >>= λ v. returned v) ≡ r
      finished (returned v) = refl
      finished (thrown x) = refl
      finished out_of_fuel = refl
