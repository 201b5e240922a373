-- ===== src/Quantity/Parse/Precision.antt =====
-- The brackets of a quantity of web/app.js: what stands before them is computed, and the result is
-- rounded to the number of decimals inside.
use new_a.Common.{
  returned, thrown, ◌>>=◌, Option, if◌then◌else◌, Bool-cases, Option-cases, inl, inr, trim_cons, ℕ,
  true, false, not, [], ◌∷◌, ◌++◌, append_assoc, none, some, ◌==◌, Text, is_nonempty, is_space,
  trim, trim_start, trim_end, trim_end-append, arith, ◌≡◌, refl, ap, ◌∙◌, AllTrue,
}
use new_a.Quantity.{Result, empty_precision, invalid_precision}
use new_a.Number.{Arithmetic}
use new_a.Quantity.Parse.{
  split_last, drop_last_char, round_quantity, parse_plain, parse_precision, parse_trimmed,
  parse_quantity,
}

-- The text holds no `[`.
abbrev pub HasNoBracket : Text → Type 0
HasNoBracket = AllTrue (λ c. not (c == b'['))

pub drop_last_char-append : (b : ℕ) (s : Text) → drop_last_char b (s ++ b ∷ []) ≡ some s
unfolding drop_last_char
drop_last_char-append b [] = ground arith
drop_last_char-append b (c ∷ []) = ground arith
drop_last_char-append b (c ∷ d ∷ s) = rw (drop_last_char-append b (d ∷ s))

pub split_last-absent : (s : Text) → HasNoBracket s → split_last b'[' s ≡ none
unfolding split_last
split_last-absent [] h = refl
split_last-absent (c ∷ s) h = rw (split_last-absent s h.1) (ground arith)

split_last-append :
    (before after : Text)
    → HasNoBracket after
    → split_last b'[' (before ++ b'[' ∷ after) ≡ some (before, after)
unfolding split_last
split_last-append [] after h = rw (split_last-absent after h)
split_last-append (c ∷ before) after h = rw (split_last-append before after h)

HasNoBracket-append : (s : Text) → HasNoBracket s → HasNoBracket (s ++ b']' ∷ [])
HasNoBracket-append [] h = (refl, tt)
HasNoBracket-append (c ∷ s) h = (h.0, HasNoBracket-append s h.1)

trim_start-append :
    (s t : Text) (c : ℕ) → is_space c ≡ false → trim_start (s ++ c ∷ t) ≡ trim_start s ++ c ∷ t
unfolding trim_start
trim_start-append [] t c h = rw h
trim_start-append (d ∷ s) t c h = ground (arith, trim_start-append s t c h)

trim_start-trim_start : (s : Text) → trim_start (trim_start s) ≡ trim_start s
unfolding trim_start
trim_start-trim_start [] = refl
trim_start-trim_start (c ∷ s) = ground (arith, trim_start-trim_start s)

trim-bracketed :
    (before inside : Text)
    → trim (before ++ b'[' ∷ (inside ++ b']' ∷ []))
      ≡ trim_start before ++ b'[' ∷ (inside ++ b']' ∷ [])
unfolding trim is_space
trim-bracketed before inside =
    let body = trim_start before ++ b'[' ∷ inside in
    ap trim_end (trim_start-append before (inside ++ b']' ∷ []) b'[' refl)
    ∙ rw (← append_assoc (trim_start before) (b'[' ∷ inside) (b']' ∷ []))
        (trim_end-append body b']' refl)

trim-trim_start : (s : Text) → trim (trim_start s) ≡ trim s
unfolding trim
trim-trim_start s = ap trim_end (trim_start-trim_start s)

is_nonempty-append : (s t : Text) (c : ℕ) → is_nonempty (s ++ c ∷ t) ≡ true
is_nonempty-append [] t c = refl
is_nonempty-append (d ∷ s) t c = refl

HasNoBracket-trim_start : (s : Text) → HasNoBracket s → HasNoBracket (trim_start s)
unfolding trim_start
HasNoBracket-trim_start [] h = tt
HasNoBracket-trim_start (c ∷ s) h = elim (Bool-cases (is_space c)) [
  | inl space ↦ rw space (HasNoBracket-trim_start s h.1)
  | inr other ↦ rw other h
]

HasNoBracket-trim_cons : (c : ℕ) (s : Text) → HasNoBracket (c ∷ s) → HasNoBracket (trim_cons c s)
unfolding trim_cons
HasNoBracket-trim_cons c [] h = elim (Bool-cases (is_space c)) [
  | inl space ↦ rw space tt
  | inr other ↦ rw other h
]
HasNoBracket-trim_cons c (d ∷ s) h = h

HasNoBracket-trim_end : (s : Text) → HasNoBracket s → HasNoBracket (trim_end s)
unfolding trim_end
HasNoBracket-trim_end [] h = tt
HasNoBracket-trim_end (c ∷ s) h =
    HasNoBracket-trim_cons c (trim_end s) (h.0, HasNoBracket-trim_end s h.1)

HasNoBracket-trim : (s : Text) → HasNoBracket s → HasNoBracket (trim s)
unfolding trim
HasNoBracket-trim s h = HasNoBracket-trim_end (trim_start s) (HasNoBracket-trim_start s h)

module _ (a : Arithmetic) where
  open a use {Num, of_text, times, over, round, power_of_ten, natural}

  parse_quantity_plain :
      (before : Text)
      → is_nonempty (trim before) ≡ true
      → HasNoBracket before
      → parse_quantity a before ≡ parse_plain a (trim before)
  unfolding parse_quantity
  parse_quantity_plain before n h =
      rw (n, parse_trimmed, split_last-absent (trim before) (HasNoBracket-trim before h)) refl

  parse_quantity_bracketed :
      (before inside : Text)
      → HasNoBracket inside
      → parse_quantity a (before ++ b'[' ∷ (inside ++ b']' ∷ [])) ≡ (
          parse_precision a inside >>= λ decimals.
          parse_plain a (trim before) >>= λ v. returned (round_quantity a v decimals))
  unfolding parse_quantity
  parse_quantity_bracketed before inside h = rw (
    trim-bracketed before inside,
    is_nonempty-append (trim_start before) (inside ++ b']' ∷ []) b'[',
    parse_trimmed,
    split_last-append (trim_start before) (inside ++ b']' ∷ []) (HasNoBracket-append inside h),
    drop_last_char-append b']' inside,
    trim-trim_start before,
  )

  -- A value to be rounded, for the number that the brackets spell, if they spell one.
  abbrev pub rounded_to : Text → Result Num → Option ℕ → Result Num
  rounded_to text value none = thrown (invalid_precision text)
  rounded_to text value (some decimals) = value >>= λ v.
      returned (over (round (times v (power_of_ten decimals))) (power_of_ten decimals))

  precision_cases :
      (inside : Text) (value : Result Num)
      → (parse_precision a inside >>= λ decimals.
          value >>= λ v. returned (round_quantity a v decimals))
        ≡ (if is_nonempty (trim inside)
            then rounded_to (trim inside) value (natural (of_text (trim inside)))
            else thrown empty_precision)
  unfolding parse_precision round_quantity
  precision_cases inside value = elim (Bool-cases (is_nonempty (trim inside))) [
    | inr blank ↦ rw blank refl
    | inl full ↦ elim (Option-cases (natural (of_text (trim inside)))) [
      | inl no_number ↦ rw (full, no_number) refl
      | inr (decimals, number) ↦ rw (full, number) refl
    ]
  ]

  -- A quantity with a precision is the quantity before the brackets, rounded. For a `before` that is
  -- not blank, and with no `[` in `before` and `inside`, the text `before[inside]` parses to what
  -- `before` parses to: where `inside` spells a natural number `d`, the value is multiplied by the
  -- power of ten of `d`, rounded and divided by it, and an error stays the same. A blank `inside` and
  -- one that spells no natural number are errors of their own, whatever `before` is.
  pub parse_quantity_precision :
      (before inside : Text)
      → is_nonempty (trim before) ≡ true
      → HasNoBracket before
      → HasNoBracket inside
      → parse_quantity a (before ++ b'[' ∷ (inside ++ b']' ∷ [])) ≡ (
          if is_nonempty (trim inside)
          then rounded_to (trim inside) (parse_quantity a before) (natural (of_text (trim inside)))
          else thrown empty_precision)
  parse_quantity_precision before inside n k h =
      parse_quantity_bracketed before inside h
      ∙ rw (parse_quantity_plain before n k) (precision_cases inside (parse_plain a (trim before)))
