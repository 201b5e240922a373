-- ===== src/Quantity/Lexer/Spelling.antt =====
-- The spellings of a list of tokens, and the tokenizer of web/app.js on them.
use new_a.Common.{
  returned, out_of_fuel, ◌>>=◌, bind_assoc, ℕ, zero, suc, ◌≤◌, true, List, [], ◌∷◌, ◌++◌, length,
  length-append, take_while, drop_while, length-drop_while-le, Text, is_nonempty, trim, strip,
  strip-trim, arith, ◌≡◌, ◌≢◌, refl, ap, ◌∙◌, AllTrue, StopsAt, take_while-append,
  drop_while-append,
}
use new_a.Quantity.{Result, Token, plus, minus, mul, div, lparen, rparen, number}
use new_a.Quantity.Settles.{bind-ne-out_of_fuel}
use new_a.Number.{Arithmetic}
use new_a.Quantity.Lexer.{is_number_char, parse_localized_number, tokenize_loop, tokenize}

-- A lexeme: a symbol, of which the products and the quotients have two each, or a numeral.
pub data Lexeme : Type 0 where
  plus_sign minus_sign star dot slash colon open_paren closing_paren : Lexeme
  numeral : ℕ → Text → Lexeme

abbrev pub spell : Lexeme → Text
spell plus_sign = b'+' ∷ []
spell minus_sign = b'-' ∷ []
spell star = b'*' ∷ []
spell dot = b'.' ∷ []
spell slash = b'/' ∷ []
spell colon = b':' ∷ []
spell open_paren = b'(' ∷ []
spell closing_paren = b')' ∷ []
spell (numeral c cs) = c ∷ cs

abbrev pub spell_all : List Lexeme → Text
spell_all [] = []
spell_all (l ∷ ls) = spell l ++ spell_all ls

-- No numeral follows a numeral, and numerals consist of digits and commas.
abbrev pub StartsApart : List Lexeme → Type 0
StartsApart (numeral c cs ∷ ls) = ⊥
StartsApart _ = Unit {0}

abbrev pub AreSpelled : List Lexeme → Type 0
AreSpelled [] = Unit
AreSpelled (numeral c cs ∷ ls) =
    (is_number_char c ≡ true) × AllTrue is_number_char cs × StartsApart ls × AreSpelled ls
AreSpelled (_ ∷ ls) = AreSpelled ls

is_nonempty-spell : (l : Lexeme) (s : Text) → is_nonempty (spell l ++ s) ≡ true
is_nonempty-spell plus_sign s = refl
is_nonempty-spell _ s = refl

module _ (a : Arithmetic) where
  open a use {Num}

  -- The token of a lexeme.
  abbrev pub token_of : Lexeme → Result (Token Num)
  token_of plus_sign = returned plus
  token_of minus_sign = returned minus
  token_of star = returned mul
  token_of dot = returned mul
  token_of slash = returned div
  token_of colon = returned div
  token_of open_paren = returned lparen
  token_of closing_paren = returned rparen
  token_of (numeral c cs) = do n ← parse_localized_number a (c ∷ cs); returned (number n)

  abbrev pub tokens_of_all : List Lexeme → Result (List (Token Num))
  tokens_of_all [] = returned []
  tokens_of_all (l ∷ ls) = do t ← token_of l; ts ← tokens_of_all ls; returned (t ∷ ts)

  StopsAt-spell_all : (ls : List Lexeme) → StartsApart ls → StopsAt is_number_char (spell_all ls)
  unfolding is_number_char
  StopsAt-spell_all [] h = tt
  StopsAt-spell_all (numeral c cs ∷ ls) h = absurd h
  StopsAt-spell_all (plus_sign ∷ ls) h = refl
  StopsAt-spell_all (_ ∷ ls) h = refl

  tokenize_loop_numeral :
      (f c : ℕ) (cs : Text)
      → is_number_char c ≡ true
      → tokenize_loop a (suc f) (c ∷ cs) ≡ (
          parse_localized_number a (c ∷ take_while is_number_char cs) >>= λ n.
          tokenize_loop a f (drop_while is_number_char cs) >>= λ ts. returned (number n ∷ ts))
  unfolding tokenize_loop
  tokenize_loop_numeral f c cs h = ground arith

  tokenize_loop-spell_all :
      (ls : List Lexeme) (f : ℕ)
      → AreSpelled ls
      → length (spell_all ls) ≤ f
      → tokenize_loop a f (spell_all ls) ≡ tokens_of_all ls
  unfolding tokenize_loop
  tokenize_loop-spell_all [] zero h k = refl
  tokenize_loop-spell_all [] (suc f) h k = refl
  tokenize_loop-spell_all (numeral c cs ∷ ls) zero h k = absurd (omega arith)
  tokenize_loop-spell_all (numeral c cs ∷ ls) (suc f) (h₀, h₁, h₂, h₃) k =
      let stops = StopsAt-spell_all ls h₂ in
      tokenize_loop_numeral f c (cs ++ spell_all ls) h₀
      ∙ rw (
        take_while-append is_number_char cs (spell_all ls) h₁ stops,
        drop_while-append is_number_char cs (spell_all ls) h₁ stops,
        tokenize_loop-spell_all ls f h₃ (omega (arith, length-append cs (spell_all ls))),
        bind_assoc (parse_localized_number a (c ∷ cs)),
      )
  tokenize_loop-spell_all (plus_sign ∷ ls) zero h k = absurd (omega arith)
  tokenize_loop-spell_all (plus_sign ∷ ls) (suc f) h k =
      ap (λ r. do ts ← r; returned (plus ∷ ts)) (tokenize_loop-spell_all ls f h (omega arith))
  tokenize_loop-spell_all (_ ∷ ls) zero h k = absurd (omega arith)
  tokenize_loop-spell_all (l ∷ ls) (suc f) h k = rw (tokenize_loop-spell_all ls f h (omega arith))

  length-tail : (f : ℕ) (cs : Text) → length cs ≤ f → length (drop_while is_number_char cs) ≤ f
  length-tail f cs h = omega (arith, length-drop_while-le is_number_char cs)

  pub parse_localized_number-ne-out_of_fuel :
      (raw : Text) → parse_localized_number a raw ≢ out_of_fuel
  unfolding parse_localized_number
  parse_localized_number-ne-out_of_fuel raw = ground arith

  tokenize_loop-ne-out_of_fuel :
      (f : ℕ) (s : Text) → length s ≤ f → tokenize_loop a f s ≢ out_of_fuel
  unfolding tokenize_loop
  tokenize_loop-ne-out_of_fuel zero [] h = λ q. cc
  tokenize_loop-ne-out_of_fuel (suc f) [] h = λ q. cc
  tokenize_loop-ne-out_of_fuel zero (c ∷ cs) h = absurd (omega arith)
  tokenize_loop-ne-out_of_fuel (suc f) (c ∷ cs) h =
      let rest = tokenize_loop-ne-out_of_fuel f cs (omega arith) in
      let symbol = λ (t : Token Num).
        bind-ne-out_of_fuel (tokenize_loop a f cs) (λ ts. returned (t ∷ ts)) rest (λ x q. cc) in
      let later =
        tokenize_loop-ne-out_of_fuel f (drop_while is_number_char cs)
          (length-tail f cs (omega arith)) in
      let numeral =
        bind-ne-out_of_fuel (parse_localized_number a (c ∷ take_while is_number_char cs))
          (λ n. tokenize_loop a f (drop_while is_number_char cs) >>= λ ts. returned (number n ∷ ts))
          (parse_localized_number-ne-out_of_fuel (c ∷ take_while is_number_char cs))
          (λ n.
            bind-ne-out_of_fuel (tokenize_loop a f (drop_while is_number_char cs))
              (λ ts. returned (number n ∷ ts)) later (λ x q. cc)) in
      ground (
        arith,
        symbol plus,
        symbol minus,
        symbol mul,
        symbol div,
        symbol lparen,
        symbol rparen,
        numeral,
      )

  -- The fuel of the tokenizer suffices for every text.
  pub tokenize-ne-out_of_fuel : (text : Text) → tokenize a text ≢ out_of_fuel
  unfolding tokenize
  tokenize-ne-out_of_fuel text = ground (
    arith,
    tokenize_loop-ne-out_of_fuel (length (strip (trim text))) (strip (trim text)) (omega arith),
  )

  -- The tokenizer inverts every spelling: a text that, white space apart, writes a nonempty list of
  -- lexemes one after another, no numeral directly after a numeral, is read as the tokens of those
  -- lexemes, with `*` and `.` for a product, `/` and `:` for a quotient, and the errors of the
  -- numerals in their order.
  pub tokenize-spell_all :
      (text : Text) (ls : List Lexeme)
      → ls ≢ []
      → AreSpelled ls
      → strip text ≡ spell_all ls
      → tokenize a text ≡ tokens_of_all ls
  unfolding tokenize
  tokenize-spell_all text [] n h e = absurd (n refl)
  tokenize-spell_all text (l ∷ ls) n h e =
      let normal : strip (trim text) ≡ spell_all (l ∷ ls) = strip-trim text ∙ e in
      rw normal (
        ground (
          arith,
          tokenize_loop-spell_all (l ∷ ls) (length (spell_all (l ∷ ls))) h (omega arith),
          is_nonempty-spell l (spell_all ls),
        ))
