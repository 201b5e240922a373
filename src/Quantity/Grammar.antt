-- ===== src/Quantity/Grammar.antt =====
-- The language of quantity expressions: its trees, the tokens of a tree and its value. Products bind
-- tighter than sums, both associate to the left, and signs stand in front of a factor.
use new_a.Common.{returned, thrown, ◌>>=◌, List, [], ◌∷◌, ◌++◌, if◌then◌else◌}
use new_a.Quantity.{Result, division_by_zero, Token, plus, minus, mul, div, lparen, rparen, number}
use new_a.Number.{Arithmetic}

mutual
  pub data Expr (N : Type 0) : Type 0 where
    expr : Term N → Sums N → Expr N

  -- what follows the first term of an expression
  pub data Sums (N : Type 0) : Type 0 where
    no_sums : Sums N
    plus_term minus_term : Term N → Sums N → Sums N

  pub data Term (N : Type 0) : Type 0 where
    term : Factor N → Products N → Term N

  -- what follows the first factor of a term
  pub data Products (N : Type 0) : Type 0 where
    no_products : Products N
    times_factor over_factor : Factor N → Products N → Products N

  pub data Factor (N : Type 0) : Type 0 where
    literal : N → Factor N
    positive negative : Factor N → Factor N
    parens : Expr N → Factor N

module _ {N : Type 0} where
  unfoldable mutual
    pub tokens : Expr N → List (Token N)
    tokens (expr t s) = tokens_of_term t ++ tokens_of_sums s

    pub tokens_of_sums : Sums N → List (Token N)
    tokens_of_sums no_sums = []
    tokens_of_sums (plus_term t s) = plus ∷ (tokens_of_term t ++ tokens_of_sums s)
    tokens_of_sums (minus_term t s) = minus ∷ (tokens_of_term t ++ tokens_of_sums s)

    pub tokens_of_term : Term N → List (Token N)
    tokens_of_term (term x p) = tokens_of_factor x ++ tokens_of_products p

    pub tokens_of_products : Products N → List (Token N)
    tokens_of_products no_products = []
    tokens_of_products (times_factor x p) = mul ∷ (tokens_of_factor x ++ tokens_of_products p)
    tokens_of_products (over_factor x p) = div ∷ (tokens_of_factor x ++ tokens_of_products p)

    pub tokens_of_factor : Factor N → List (Token N)
    tokens_of_factor (literal n) = number n ∷ []
    tokens_of_factor (positive x) = plus ∷ tokens_of_factor x
    tokens_of_factor (negative x) = minus ∷ tokens_of_factor x
    tokens_of_factor (parens e) = lparen ∷ (tokens e ++ (rparen ∷ []))

module _ (a : Arithmetic) where
  open a use {Num, add, sub, times, over, neg, is_zero}

  abbrev pub divide : Num → Num → Result Num
  divide v w = if is_zero w then thrown division_by_zero else returned (over v w)

  -- The value of a tree, computed from left to right; a division by zero is an error.
  unfoldable mutual
    pub value : Expr Num → Result Num
    value (expr t s) = do v ← value_of_term t; value_of_sums s v

    pub value_of_sums : Sums Num → Num → Result Num
    value_of_sums no_sums v = returned v
    value_of_sums (plus_term t s) v = do w ← value_of_term t; value_of_sums s (add v w)
    value_of_sums (minus_term t s) v = do w ← value_of_term t; value_of_sums s (sub v w)

    pub value_of_term : Term Num → Result Num
    value_of_term (term x p) = do v ← value_of_factor x; value_of_products p v

    pub value_of_products : Products Num → Num → Result Num
    value_of_products no_products v = returned v
    value_of_products (times_factor x p) v = do
      w ← value_of_factor x
      value_of_products p (times v w)
    value_of_products (over_factor x p) v = do
      w ← value_of_factor x
      q ← divide v w
      value_of_products p q

    pub value_of_factor : Factor Num → Result Num
    value_of_factor (literal n) = returned n
    value_of_factor (positive x) = value_of_factor x
    value_of_factor (negative x) = do v ← value_of_factor x; returned (neg v)
    value_of_factor (parens e) = value e
