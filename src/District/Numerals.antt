-- ===== src/District/Numerals.antt =====
-- Printed numbers in the place of a region code or a zone (web/app.js).
use new_a.Common.{
  ℕ, ◌<◌, ◌≤◌, true, false, not, ◌||◌, [], ◌∷◌, Option, none, some, ◌==◌, ltb, if◌then◌else◌, Text,
  is_nonempty, trim, trim_start, trim_end, trim_cons, is_space, take_while, is_digit, digits,
  decimal_value, decimal_value-digits, digits-AllTrue, digits-is_nonempty, lt→ltb, AllTrue, Lacks,
  ◌≡◌, refl, ap, ◌∙◌, arith, Bool-cases, ◌⊎◌, inl, inr, ◌^◌,
}
use new_a.District.{Integer, parse_int, zone_of, region_of, normalize_zone, normalize_region_code}

digit-space : (c : ℕ) → is_digit c ≡ true → is_space c ≡ false
unfolding is_space
digit-space c h = ground arith

-- No white space stands in a text.
abbrev pub HasNoSpace : Text → Type 0
HasNoSpace = AllTrue (λ c. not (is_space c))

trim_end_id : (s : Text) → HasNoSpace s → trim_end s ≡ s
unfolding trim_end trim_cons
trim_end_id [] h = refl
trim_end_id (c ∷ []) h = ground (arith, h.0)
trim_end_id (c ∷ d ∷ s) h = rw (trim_end_id (d ∷ s) h.1) refl

trim_start_id : (s : Text) → HasNoSpace s → trim_start s ≡ s
unfolding trim_start
trim_start_id [] h = refl
trim_start_id (c ∷ s) h = ground (arith, h.0)

pub trim_id : (s : Text) → HasNoSpace s → trim s ≡ s
unfolding trim
trim_id s h = rw (trim_start_id s h) (trim_end_id s h)

pub digits-HasNoSpace : (s : Text) → AllTrue is_digit s → HasNoSpace s
digits-HasNoSpace [] h = tt
digits-HasNoSpace (c ∷ s) h = (ground (arith, digit-space c h.0), digits-HasNoSpace s h.1)

take_while_all : (s : Text) → AllTrue is_digit s → take_while is_digit s ≡ s
take_while_all [] h = refl
take_while_all (c ∷ s) h = rw (h.0) (ap (λ r. c ∷ r) (take_while_all s h.1))

-- A text of digits is read as its value.
parse_int-digits :
    (s : Text)
    → AllTrue is_digit s
    → is_nonempty s ≡ true
    → parse_int s ≡ some (record { is_negative = false; magnitude = decimal_value s })
unfolding parse_int
parse_int-digits [] h k = cc
parse_int-digits (c ∷ cs) h k =
    let minus : (c == b'-') ≡ false = ground (arith, h.0) in
    let plus : (c == b'+') ≡ false = ground (arith, h.0) in
    rw (minus, plus, h.0, take_while_all cs h.1) refl

pub Lacks-digits : (b : ℕ) (s : Text) → is_digit b ≡ false → AllTrue is_digit s → Lacks b s
Lacks-digits b [] h k = tt
Lacks-digits b (c ∷ s) h k = (ground (arith, h, k.0), Lacks-digits b s h k.1)

-- A printed number is trimmed and read as itself.
parse_int-trim-digits :
    (n : ℕ) → parse_int (trim (digits n)) ≡ some (record { is_negative = false; magnitude = n })
parse_int-trim-digits n =
    rw (trim_id (digits n) (digits-HasNoSpace (digits n) (digits-AllTrue n))) (
      parse_int-digits (digits n) (digits-AllTrue n) (digits-is_nonempty n)
      ∙ ap (λ m. some (record { is_negative = false; magnitude = m })) (decimal_value-digits n))

pub trim-digits : (n : ℕ) → trim (digits n) ≡ digits n
trim-digits n = trim_id (digits n) (digits-HasNoSpace (digits n) (digits-AllTrue n))

zone_of_small :
    (m : ℕ)
    → 1 ≤ m
    → m ≤ 11
    → zone_of (some (record { is_negative = false; magnitude = m })) ≡ digits m
unfolding zone_of
zone_of_small m h k =
    let low : ltb m 1 ≡ false = ground arith in
    let high : ltb 11 m ≡ false = ground arith in rw (low, high) refl

pub normalize_zone_lem :
    (zone : Text)
    → normalize_zone zone
      ≡ (if is_nonempty (trim zone) then zone_of (parse_int (trim zone)) else [])
unfolding normalize_zone
normalize_zone_lem zone = refl

pub normalize_zone-digits : (m : ℕ) → 1 ≤ m → m ≤ 11 → normalize_zone (digits m) ≡ digits m
normalize_zone-digits m h k =
    rw (normalize_zone_lem (digits m), parse_int-trim-digits m, trim-digits m, digits-is_nonempty m)
      (zone_of_small m h k)

module _ (large_text : Text → Text) where
  pub region_of_exact :
      (n : ℕ) (s : Text)
      → n < 2 ^ 53
      → region_of large_text (some (record { is_negative = false; magnitude = n })) s ≡ digits n
  unfolding region_of
  region_of_exact n s h = let exact : ltb n (2 ^ 53) ≡ true = lt→ltb n (2 ^ 53) h in rw exact refl

  pub normalize_region_code_lem :
      (code : Text)
      → normalize_region_code large_text code ≡ (
          if is_nonempty (trim code)
          then region_of large_text (parse_int (trim code)) (trim code)
          else [])
  unfolding normalize_region_code
  normalize_region_code_lem code = refl

  pub normalize_region_code-digits :
      (n : ℕ) → n < 2 ^ 53 → normalize_region_code large_text (digits n) ≡ digits n
  normalize_region_code-digits n h =
      rw
        (
          normalize_region_code_lem (digits n),
          parse_int-trim-digits n,
          trim-digits n,
          digits-is_nonempty n,
        )
        (region_of_exact n (digits n) h)

zone_of_cases :
    (o : Option Integer)
    → (zone_of o ≡ []) ⊎ ((m : ℕ) × (1 ≤ m) × (m ≤ 11) × (zone_of o ≡ digits m))
unfolding zone_of
zone_of_cases none = inl refl
zone_of_cases (some numeric) =
    elim (Bool-cases (numeric.is_negative || ltb numeric.magnitude 1 || ltb 11 numeric.magnitude)) [
      | inl refused ↦ inl (rw refused refl)
      | inr kept ↦ inr (numeric.magnitude, ground (arith, kept), ground (arith, kept), rw kept refl)
    ]

pub normalize_zone_cases :
    (zone : Text)
    → (normalize_zone zone ≡ []) ⊎ ((m : ℕ) × (1 ≤ m) × (m ≤ 11) × (normalize_zone zone ≡ digits m))
normalize_zone_cases zone = elim (Bool-cases (is_nonempty (trim zone))) [
  | inl filled ↦ rw (normalize_zone_lem zone, filled) (zone_of_cases (parse_int (trim zone)))
  | inr empty ↦ inl (rw (normalize_zone_lem zone, empty) refl)
]
