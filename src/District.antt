-- ===== src/District.antt =====
-- The district of an estimate, a region code and a zone written with a dot between:
-- `normalizeDistrictRegionCode`, `normalizeDistrictZone`, `parseDistrictValue` and
-- `formatDistrictValue` (web/app.js).
pub mod Numerals
pub mod RoundTrip
mod Tests
use new_a.Common.{
  ℕ, Bool, true, false, not, ◌||◌, ◌&&◌, List, [], ◌∷◌, ◌++◌, Option, none, some, ◌==◌, ltb, leb,
  ◌^◌, if◌then◌else◌, Text, is_nonempty, trim, take_while, is_digit, digits, decimal_value,
}
use new_a.PositionCode.{split_first}

-- An integer with its sign, as `Number.parseInt` reads it.
pub record Integer : Type 0 where
  pub is_negative : Bool
  pub magnitude : ℕ

abbrev digits_at_start : Bool → Text → Option Integer
digits_at_start is_negative text =
    let ds = take_while is_digit text in
    if is_nonempty ds
    then some (record { is_negative = is_negative; magnitude = decimal_value ds })
    else none

-- `Number.parseInt(text, 10)` on a trimmed text; `none` is NaN.
unfoldable pub parse_int : Text → Option Integer
unfolding decimal_value
parse_int [] = none
parse_int (c ∷ cs) =
    if c == b'-'
    then digits_at_start true cs
    else if c == b'+'
    then digits_at_start false cs
    else digits_at_start false (c ∷ cs)

-- The zone that a number stands for: those from 1 to 11.
unfoldable pub zone_of : Option Integer → Text
unfolding digits
zone_of none = []
zone_of (some numeric) =
    if numeric.is_negative || ltb numeric.magnitude 1 || ltb 11 numeric.magnitude
    then []
    else digits numeric.magnitude

unfoldable pub normalize_zone : Text → Text
unfolding trim parse_int zone_of
normalize_zone zone =
    let text = trim zone in if is_nonempty text then zone_of (parse_int text) else []

pub record District : Type 0 where
  pub region_code : Text
  pub zone : Text

-- `large_text` is the result for a trimmed code whose number is not below 2 ^ 53, and so not held
-- exactly by the language.
module _ (large_text : Text → Text) where
  -- `Number.isFinite(numeric) ? String(numeric) : trimmed`.
  unfoldable pub region_of : Option Integer → Text → Text
  unfolding digits
  region_of none trimmed = trimmed
  region_of (some numeric) trimmed =
      if ltb numeric.magnitude (2 ^ 53)
      then if numeric.is_negative && not (numeric.magnitude == 0)
        then b'-' ∷ digits numeric.magnitude
        else digits numeric.magnitude
      else large_text trimmed

  unfoldable pub normalize_region_code : Text → Text
  unfolding trim parse_int region_of
  normalize_region_code code =
      let trimmed = trim code in
      if is_nonempty trimmed then region_of (parse_int trimmed) trimmed else []

  unfoldable pub parse_district : Text → District
  unfolding trim split_first normalize_region_code normalize_zone
  parse_district district =
      let text = trim district in
      if is_nonempty text
      then elim (split_first b'.' text) [
        | none ↦ record { region_code = normalize_region_code text; zone = [] }
        | some (region, zone_part) ↦ record {
          region_code = normalize_region_code region;
          zone = elim (split_first b'.' zone_part) [
            | some _ ↦ []
            | none ↦ normalize_zone zone_part
          ];
        }
      ]
      else record { region_code = []; zone = [] }

  unfoldable pub format_district : Text → Text → Text
  unfolding normalize_region_code normalize_zone
  format_district region_code zone =
      let base = normalize_region_code region_code in
      let zone_text = normalize_zone zone in
      if not (is_nonempty base)
      then []
      else if not (is_nonempty zone_text)
      then base
      else base ++ b'.' ∷ zone_text
