-- ===== src/District/RoundTrip.antt =====
-- `formatDistrictValue` followed by `parseDistrictValue` (web/app.js).
use new_a.Common.{
  ℕ, ◌<◌, ◌≤◌, true, false, not, [], ◌∷◌, ◌++◌, none, some, if◌then◌else◌, Text, is_nonempty, trim,
  is_space, digits, digits-AllTrue, digits-is_nonempty, Lacks, ◌≡◌, refl, arith, inl, inr, ◌^◌,
}
use new_a.PositionCode.{split_first}
use new_a.PositionCode.OriginalCode.{split_first-append}
use new_a.District.Numerals.{
  HasNoSpace, trim_id, digits-HasNoSpace, Lacks-digits, trim-digits, normalize_zone_cases,
  normalize_zone-digits, normalize_region_code_lem, normalize_region_code-digits, region_of_exact,
}
use new_a.District.{
  Integer, parse_int, normalize_zone, normalize_region_code, parse_district, format_district,
}

split_first_absent : (b : ℕ) (s : Text) → Lacks b s → split_first b s ≡ none
unfolding split_first
split_first_absent b [] h = refl
split_first_absent b (c ∷ s) h = ground (arith, h.0, split_first_absent b s h.1)

parse_int_filled :
    (s : Text) (numeric : Integer) → parse_int s ≡ some numeric → is_nonempty s ≡ true
unfolding parse_int
parse_int_filled [] numeric h = cc
parse_int_filled (c ∷ s) numeric h = refl

no_dot : (n : ℕ) → Lacks b'.' (digits n)
no_dot n = Lacks-digits b'.' (digits n) refl (digits-AllTrue n)

HasNoSpace-append : (s t : Text) → HasNoSpace s → HasNoSpace t → HasNoSpace (s ++ t)
HasNoSpace-append [] t h k = k
HasNoSpace-append (c ∷ s) t h k = (h.0, HasNoSpace-append s t h.1 k)

dot_no_space : not (is_space b'.') ≡ true
unfolding is_space
dot_no_space = refl

dotted-HasNoSpace : (n m : ℕ) → HasNoSpace (digits n ++ b'.' ∷ digits m)
dotted-HasNoSpace n m =
    HasNoSpace-append (digits n) (b'.' ∷ digits m) (digits-HasNoSpace (digits n) (digits-AllTrue n))
      (dot_no_space, digits-HasNoSpace (digits m) (digits-AllTrue m))

append-filled : (s t : Text) → is_nonempty s ≡ true → is_nonempty (s ++ t) ≡ true
append-filled [] t h = cc
append-filled (c ∷ s) t h = refl

module _ (large_text : Text → Text) where
  parse_district_lem :
      (district : Text)
      → parse_district large_text district ≡ (
          if is_nonempty (trim district)
          then elim (split_first b'.' (trim district)) [
            | none ↦ record {
              region_code = normalize_region_code large_text (trim district);
              zone = [];
            }
            | some (region, zone_part) ↦ record {
              region_code = normalize_region_code large_text region;
              zone = elim (split_first b'.' zone_part) [
                | some _ ↦ []
                | none ↦ normalize_zone zone_part
              ];
            }
          ]
          else record { region_code = []; zone = [] })
  unfolding parse_district
  parse_district_lem district = refl

  parse_region :
      (n : ℕ)
      → n < 2 ^ 53
      → parse_district large_text (digits n) ≡ record { region_code = digits n; zone = [] }
  parse_region n h =
      rw
        (
          parse_district_lem (digits n),
          trim-digits n,
          digits-is_nonempty n,
          split_first_absent b'.' (digits n) (no_dot n),
          trim-digits n,
          normalize_region_code-digits large_text n h,
        )
        refl

  parse_dotted :
      (n m : ℕ)
      → n < 2 ^ 53
      → 1 ≤ m
      → m ≤ 11
      → parse_district large_text (digits n ++ b'.' ∷ digits m)
        ≡ record { region_code = digits n; zone = digits m }
  parse_dotted n m h k l =
      let text = digits n ++ b'.' ∷ digits m in
      rw
        (
          parse_district_lem text,
          trim_id text (dotted-HasNoSpace n m),
          append-filled (digits n) (b'.' ∷ digits m) (digits-is_nonempty n),
          split_first-append b'.' (digits n) (digits m) (no_dot n),
          split_first_absent b'.' (digits m) (no_dot m),
          normalize_region_code-digits large_text n h,
          normalize_zone-digits m k l,
        )
        refl

  base_of :
      (region : Text) (n : ℕ)
      → parse_int (trim region) ≡ some (record { is_negative = false; magnitude = n })
      → n < 2 ^ 53
      → normalize_region_code large_text region ≡ digits n
  base_of region n h k =
      rw
        (
          normalize_region_code_lem large_text region,
          parse_int_filled (trim region) (record { is_negative = false; magnitude = n }) h,
          h,
        )
        (region_of_exact large_text n (trim region) k)

  format_district_lem :
      (region zone : Text)
      → format_district large_text region zone ≡ (
          if not (is_nonempty (normalize_region_code large_text region))
          then []
          else if not (is_nonempty (normalize_zone zone))
          then normalize_region_code large_text region
          else normalize_region_code large_text region ++ b'.' ∷ normalize_zone zone)
  unfolding format_district
  format_district_lem region zone = refl

  -- A formatted district is read back: where the region code begins with a natural number below
  -- 2 ^ 53, reading the district that is written for it and any zone gives the normal form of the
  -- region code and that of the zone.
  pub parse_district-format_district :
      (region zone : Text) (n : ℕ)
      → parse_int (trim region) ≡ some (record { is_negative = false; magnitude = n })
      → n < 2 ^ 53
      → parse_district large_text (format_district large_text region zone) ≡ record {
        region_code = normalize_region_code large_text region;
        zone = normalize_zone zone;
      }
  parse_district-format_district region zone n h k =
      let base = base_of region n h k in
      elim (normalize_zone_cases zone) [
        | inl none_left ↦
            rw (format_district_lem region zone, base, none_left, digits-is_nonempty n)
              (parse_region n k)
        | inr (m, low, high, e) ↦
            rw
              (format_district_lem region zone, base, e, digits-is_nonempty n, digits-is_nonempty m)
              (parse_dotted n m k low high)
      ]
