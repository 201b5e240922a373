-- ===== src/Quantity/Evaluate/Sound.antt =====
-- The fuel of the evaluator of web/app.js, and the lists of tokens that it accepts.
use new_a.Common.{
  returned, out_of_fuel, ℕ, zero, suc, ◌+◌, ◌*◌, ◌<◌, List, [], ◌∷◌, ◌++◌, length, length-append,
  append_assoc, append-nil, ◌≡◌, ◌≢◌, ◌↔◌, refl, sym, ap, ◌∙◌, arith,
}
use new_a.Quantity.{Result, Token, plus, minus, mul, div, lparen, rparen, number}
use new_a.Quantity.Settles.{
  Settles, returns, throws, Settles-ne-out_of_fuel, Settles-mono, Settles-bind, Settles-self,
  settled,
}
use new_a.Number.{Arithmetic}
use new_a.Quantity.Grammar.{
  Expr, expr, no_sums, plus_term, minus_term, Term, term, no_products, times_factor, over_factor,
  Factor, literal, positive, negative, parens, tokens, tokens_of_sums, tokens_of_term,
  tokens_of_products, tokens_of_factor, divide, value, value_of_sums, value_of_term,
  value_of_products, value_of_factor,
}
use new_a.Quantity.Evaluate.{
  close_paren, parse_expression, expression_loop, parse_term, term_loop, parse_factor, finish,
  evaluate_tokens,
}
use new_a.Quantity.Evaluate.Complete.{evaluate_tokens-tokens}

length-append_tokens :
    {N : Type 0} (xs ys : List (Token N)) → length (xs ++ ys) ≡ length xs + length ys
length-append_tokens = length-append

ruleset lengths = (arith, length-append_tokens)

length-tokens_of_factor_pos : {N : Type 0} (x : Factor N) → 0 < length (tokens_of_factor x)
unfolding tokens_of_factor
length-tokens_of_factor_pos (literal n) = omega arith
length-tokens_of_factor_pos (positive x) = omega arith
length-tokens_of_factor_pos (negative x) = omega arith
length-tokens_of_factor_pos (parens e) = omega arith

length-tokens_of_term_pos : {N : Type 0} (t : Term N) → 0 < length (tokens_of_term t)
unfolding tokens_of_term
length-tokens_of_term_pos (term x p) = omega (lengths, length-tokens_of_factor_pos x)

-- The tokens begin with those of a tree of value `v`, and `rest` follows.
record Reads {N X : Type 0} (print : X → List (Token N)) (val : X → Result N) (ts : List (Token N))
    (r : N × List (Token N)) : Type 0 where
  tree : X
  splits : ts ≡ print tree ++ r.1
  valued : val tree ≡ returned r.0

module _ (a : Arithmetic) where
  open a use {Num, add, sub, times, neg}

  close_paren-Settles :
      (v : Num) (ts : List (Token Num))
      → Settles (λ r. (r.0 ≡ v) × (ts ≡ rparen ∷ r.1)) (close_paren v ts)
  unfolding close_paren
  close_paren-Settles v (rparen ∷ ts) = returns (v, ts) (refl, refl)
  close_paren-Settles v _ = throws

  divide-Settles : (v w : Num) → Settles (λ d. divide a v w ≡ returned d) (divide a v w)
  divide-Settles v w = Settles-self (divide a v w) (ground arith)

  mutual
    unfolding parse_expression value tokens

    parse_expression-Settles :
        (f : ℕ) (ts : List (Token Num))
        → 4 * length ts + 2 < f
        → Settles (Reads tokens (value a) ts) (parse_expression a f ts)
    parse_expression-Settles zero ts h = absurd (omega arith)
    parse_expression-Settles (suc f) ts h =
        Settles-bind (parse_term-Settles f ts (omega arith)) λ (v, rest) r.
          Settles-mono (expression_loop-Settles f v rest (omega (lengths, ap length r.splits)))
            λ (w, rest') q. record {
              tree = expr r.tree q.tree;
              splits = simp (r.splits, q.splits, append_assoc);
              valued = rw (r.valued) q.valued;
            }

    expression_loop-Settles :
        (f : ℕ) (v : Num) (ts : List (Token Num))
        → 4 * length ts < f
        → Settles (Reads tokens_of_sums (λ s. value_of_sums a s v) ts) (expression_loop a f v ts)
    expression_loop-Settles zero v ts h = absurd (omega arith)
    expression_loop-Settles (suc f) v (plus ∷ ts) h =
        Settles-bind (parse_term-Settles f ts (omega arith)) λ (w, rest) r.
          Settles-mono
            (expression_loop-Settles f (add v w) rest
              (omega (lengths, ap length r.splits, length-tokens_of_term_pos r.tree)))
            λ (u, rest') q. record {
              tree = plus_term r.tree q.tree;
              splits = simp (r.splits, q.splits, append_assoc);
              valued = rw (r.valued) q.valued;
            }
    expression_loop-Settles (suc f) v (minus ∷ ts) h =
        Settles-bind (parse_term-Settles f ts (omega arith)) λ (w, rest) r.
          Settles-mono
            (expression_loop-Settles f (sub v w) rest
              (omega (lengths, ap length r.splits, length-tokens_of_term_pos r.tree)))
            λ (u, rest') q. record {
              tree = minus_term r.tree q.tree;
              splits = simp (r.splits, q.splits, append_assoc);
              valued = rw (r.valued) q.valued;
            }
    expression_loop-Settles (suc f) v _ h =
        returns (v, _) (record { tree = no_sums; splits = refl; valued = refl })

    parse_term-Settles :
        (f : ℕ) (ts : List (Token Num))
        → 4 * length ts + 1 < f
        → Settles (Reads tokens_of_term (value_of_term a) ts) (parse_term a f ts)
    parse_term-Settles zero ts h = absurd (omega arith)
    parse_term-Settles (suc f) ts h =
        Settles-bind (parse_factor-Settles f ts (omega arith)) λ (v, rest) r.
          Settles-mono (term_loop-Settles f v rest (omega (lengths, ap length r.splits)))
            λ (w, rest') q. record {
              tree = term r.tree q.tree;
              splits = simp (r.splits, q.splits, append_assoc);
              valued = rw (r.valued) q.valued;
            }

    term_loop-Settles :
        (f : ℕ) (v : Num) (ts : List (Token Num))
        → 4 * length ts < f
        → Settles (Reads tokens_of_products (λ p. value_of_products a p v) ts) (term_loop a f v ts)
    term_loop-Settles zero v ts h = absurd (omega arith)
    term_loop-Settles (suc f) v (mul ∷ ts) h =
        Settles-bind (parse_factor-Settles f ts (omega arith)) λ (w, rest) r.
          Settles-mono
            (term_loop-Settles f (times v w) rest
              (omega (lengths, ap length r.splits, length-tokens_of_factor_pos r.tree)))
            λ (u, rest') q. record {
              tree = times_factor r.tree q.tree;
              splits = simp (r.splits, q.splits, append_assoc);
              valued = rw (r.valued) q.valued;
            }
    term_loop-Settles (suc f) v (div ∷ ts) h =
        Settles-bind (parse_factor-Settles f ts (omega arith)) λ (w, rest) r.
          Settles-bind (divide-Settles v w) λ d e.
            Settles-mono
              (term_loop-Settles f d rest
                (omega (lengths, ap length r.splits, length-tokens_of_factor_pos r.tree)))
              λ (u, rest') q. record {
                tree = over_factor r.tree q.tree;
                splits = simp (r.splits, q.splits, append_assoc);
                valued = rw (r.valued, e) q.valued;
              }
    term_loop-Settles (suc f) v _ h =
        returns (v, _) (record { tree = no_products; splits = refl; valued = refl })

    parse_factor-Settles :
        (f : ℕ) (ts : List (Token Num))
        → 4 * length ts < f
        → Settles (Reads tokens_of_factor (value_of_factor a) ts) (parse_factor a f ts)
    parse_factor-Settles zero ts h = absurd (omega arith)
    parse_factor-Settles (suc f) [] h = throws
    parse_factor-Settles (suc f) (plus ∷ ts) h =
        Settles-mono (parse_factor-Settles f ts (omega arith)) λ x r. record {
          tree = positive r.tree;
          splits = ap (λ xs. plus ∷ xs) r.splits;
          valued = r.valued;
        }
    parse_factor-Settles (suc f) (minus ∷ ts) h =
        Settles-bind (parse_factor-Settles f ts (omega arith)) λ (v, rest) r.
          returns (neg v, rest)
            (record {
              tree = negative r.tree;
              splits = ap (λ xs. minus ∷ xs) r.splits;
              valued = rw (r.valued);
            })
    parse_factor-Settles (suc f) (lparen ∷ ts) h =
        Settles-bind (parse_expression-Settles f ts (omega arith)) λ (v, rest) r.
          Settles-mono (close_paren-Settles v rest) λ (w, rest') q. record {
            tree = parens r.tree;
            splits = simp (r.splits, q.1, append_assoc);
            valued = r.valued ∙ ap returned (sym q.0);
          }
    parse_factor-Settles (suc f) (number n ∷ ts) h =
        returns (n, ts) (record { tree = literal n; splits = refl; valued = refl })
    parse_factor-Settles (suc f) _ h = throws

  finish-Settles :
      (e : Expr Num) (v : Num) (rest : List (Token Num))
      → value a e ≡ returned v
      → Settles (λ w. (tokens e ++ rest ≡ tokens e) × (value a e ≡ returned w)) (finish a v rest)
  unfolding finish
  finish-Settles e v [] h = returns v (append-nil (tokens e), h)
  finish-Settles e v (t ∷ rest) h = throws

  evaluate_tokens-Settles :
      (ts : List (Token Num))
      → Settles
          (λ v. (e : Expr Num) × (ts ≡ tokens e) × (value a e ≡ returned v))
          (evaluate_tokens a ts)
  unfolding evaluate_tokens
  evaluate_tokens-Settles ts =
      Settles-bind (parse_expression-Settles (4 * length ts + 4) ts (omega arith)) λ (v, rest) r.
        Settles-mono (finish-Settles r.tree v rest r.valued) λ w h. (r.tree, r.splits ∙ h.0, h.1)

  -- The fuel that the evaluator hands out is enough for every list of tokens.
  pub evaluate_tokens-ne-out_of_fuel : (ts : List (Token Num)) → evaluate_tokens a ts ≢ out_of_fuel
  evaluate_tokens-ne-out_of_fuel ts = Settles-ne-out_of_fuel (evaluate_tokens-Settles ts)

  -- The evaluator accepts the quantity language and nothing else: it returns `v` on a list of tokens
  -- exactly when the list is that of an expression of the grammar (left-associative sums of
  -- left-associative products of signed factors) whose value is `v`.
  pub evaluate_tokens-eq-returned_iff :
      (ts : List (Token Num)) (v : Num)
      → (evaluate_tokens a ts ≡ returned v)
        ↔ ((e : Expr Num) × (ts ≡ tokens e) × (value a e ≡ returned v))
  evaluate_tokens-eq-returned_iff ts v = (
    λ h. settled (evaluate_tokens a ts) v (evaluate_tokens-Settles ts) h,
    λ (e, p, q). ap (evaluate_tokens a) p ∙ evaluate_tokens-tokens a e ∙ q,
  )
