-- ===== src/SourceData/Header/Parse.antt =====
-- `trimSourceDataRecordLine`, `parseSourceDataEstimateHeaderLine` and
-- `parseSourceDataConstructionLine` (web/app.js).
use new_a.Common.{
  Outcome, returned, thrown, ℕ, ◌/◌, Bool, not, ◌&&◌, ◌||◌, ltb, ◌^◌, [], ◌∷◌, Option, none, some,
  ◌==◌, if◌then◌else◌, Text, codes, is_nonempty, trim, trim_end, strip, split, get_or, take_while,
  drop_while, is_digit, decimal_value, drop_prefix, drop_suffix, every,
}
use new_a.Quantity.Lexer.{replace_comma}
use new_a.Quantity.Parse.{drop_last_char}
use new_a.SourceData.Escape.{delimiter}
use new_a.SourceData.Header.{letter_estimate, letter_construction, at_least_one}

pub data Error : Type 0 where
  no_asterisk : ℕ → Error
  no_estimate_letter no_construction_letter : Error

abbrev pub Result : Type 0 → Type 0
Result A = Outcome Error A

unfoldable pub trim_record_line : Text → ℕ → Result Text
unfolding trim_end drop_last_char
trim_record_line line number = elim (drop_last_char b'*' (trim_end line)) [
  | none ↦ thrown (no_asterisk number)
  | some s ↦ returned s
]

-- `.` of a regular expression matches no line terminator.
abbrev pub is_line_terminator : ℕ → Bool
is_line_terminator c = c == 10 || c == 13 || c == 0x2028 || c == 0x2029

-- `body.match(/^(\d+)''''(.*)'''''$/)`, the two groups.
unfoldable pub match_legacy_header : Text → Option (Text × Text)
unfolding drop_prefix drop_suffix
match_legacy_header body =
    let number = take_while is_digit body in
    if is_nonempty number
    then elim (drop_prefix (codes "''''") (drop_while is_digit body)) [
      | none ↦ none
      | some rest ↦ elim (drop_suffix (codes "'''''") rest) [
        | none ↦ none
        | some district ↦
            if every (λ c. not (is_line_terminator c)) district
            then some (number, district)
            else none
      ]
    ]
    else none

pub record HeaderFields : Type 0 where
  pub numeric_id : ℕ
  pub document_set : Text
  pub calculation_flags : Text
  pub district : Text

-- `other_tenth` is `Math.floor(Number(text) / 10)` on a numeral that is not made of digits only or not
-- below 2 ^ 53, and 0 where that is not positive or not finite.
module _ (other_tenth : Text → ℕ) where
  unfoldable pub parse_numeric_id : Text → ℕ
  unfolding trim strip replace_comma decimal_value
  parse_numeric_id text =
      let normalized = replace_comma (strip (trim text)) in
      at_least_one (
        if every is_digit normalized && ltb (decimal_value normalized) (2 ^ 53)
        then decimal_value normalized / 10
        else other_tenth normalized)

  unfoldable pub parse_header_body : Text → HeaderFields
  unfolding match_legacy_header parse_numeric_id split
  parse_header_body body = elim (match_legacy_header body) [
    | some (number, district) ↦ record {
      numeric_id = parse_numeric_id number;
      document_set = [];
      calculation_flags = [];
      district = district;
    }
    | none ↦
        let fields = split delimiter body in
        record {
          numeric_id = parse_numeric_id (get_or fields 0 []);
          document_set = get_or fields 1 [];
          calculation_flags = get_or fields 2 [];
          district = get_or fields 4 [];
        }
  ]

  unfoldable pub parse_header_line : Text → Result HeaderFields
  unfolding parse_header_body
  parse_header_line [] = thrown no_estimate_letter
  parse_header_line (c ∷ cs) =
      if c == letter_estimate then returned (parse_header_body cs) else thrown no_estimate_letter

pub record ConstructionFields : Type 0 where
  pub construction_name : Text
  pub construction_code : Text
  pub object_code : Text
  pub object_name : Text
  pub summary_chapter_no : Text
  pub code : Text
  pub title : Text

unfoldable pub parse_construction_line : Text → Result ConstructionFields
unfolding split
parse_construction_line [] = thrown no_construction_letter
parse_construction_line (c ∷ cs) =
    let fields = split delimiter cs in
    if c == letter_construction
    then returned (record {
      construction_name = get_or fields 2 [];
      construction_code = get_or fields 3 [];
      object_code = get_or fields 4 [];
      object_name = get_or fields 5 [];
      summary_chapter_no = get_or fields 7 [];
      code = get_or fields 8 [];
      title = get_or fields 9 [];
    })
    else thrown no_construction_letter
