-- ===== src/Number/Naturals.antt =====
-- An arithmetic to run the definitions with: natural numbers, and one value for all else.
use new_a.Common.{
  ℕ, ◌+◌, ◌-◌, ◌*◌, ◌/◌, ◌^◌, true, false, [], ◌∷◌, Option, none, some, if◌then◌else◌, leb, ◌==◌,
  Text, is_digit,
}
use new_a.Number.{Arithmetic}

-- The number that a text of digits denotes, after the number read so far.
abbrev decimal : ℕ → Text → Option ℕ
decimal n [] = some n
decimal n (c ∷ cs) = if is_digit c then decimal (n * 10 + (c - b'0')) cs else none

abbrev both : (ℕ → ℕ → Option ℕ) → Option ℕ → Option ℕ → Option ℕ
both f (some x) (some y) = f x y
both f _ _ = none

-- The natural numbers, and `none` for every other value.
abbrev pub naturals : Arithmetic
naturals = record {
  Num = Option ℕ;
  of_text = decimal 0;
  add = both (λ x y. some (x + y));
  sub = both (λ x y. if leb y x then some (x - y) else none);
  times = both (λ x y. some (x * y));
  over = both (λ x y. some (x / y));
  neg = λ x. both (λ y z. if y == 0 then some z else none) x (some 0);
  round = λ x. x;
  power_of_ten = λ n. some (10 ^ n);
  is_finite = λ x. elim x [ some n ↦ true | none ↦ false ];
  is_zero = λ x. elim x [ some n ↦ n == 0 | none ↦ false ];
  natural = λ x. x;
  zero_num = some 0;
  one_num = some 1;
  is_falsy = λ x. elim x [ some n ↦ n == 0 | none ↦ true ];
}
