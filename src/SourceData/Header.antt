-- ===== src/SourceData/Header.antt =====
-- The first two lines of the source data text of web/app.js: Э with the number of the estimate, and
-- Ю with its place in the tree of constructions.
pub mod Parse
pub mod RoundTrip
pub mod PlaceRoundTrip
mod Tests
use new_a.Common.{
  ℕ, ◌-◌, ◌*◌, ◌/◌, Bool, true, false, ◌||◌, List, [], ◌∷◌, ◌++◌, Option, none, some, leb, ltb, ◌^◌,
  if◌then◌else◌, Text, codes, is_nonempty, join, is_digit, digits, decimal_value, drop_prefix,
  filter, every, length, drop,
}
use new_a.ProjectTree.{Construction, Object, Tree, find_object, find_construction}
use new_a.SourceData.Escape.{delimiter}

-- The capital letters Э and Ю.
abbrev pub letter_estimate : ℕ
letter_estimate = 0x42d

abbrev pub letter_construction : ℕ
letter_construction = 0x42e

-- The fields of an open estimate that the two lines hold; `none` is null or a missing field.
-- `numeric_id` is `sourceDataNumericId`, which the client only sets to whole numbers above 0.
pub record Estimate : Type 0 where
  pub id : Text
  pub object_id : Text
  pub numeric_id : Option ℕ
  pub document_set : Option Text
  pub calculation_flags : Option Text
  pub summary_chapter_no : Option Text
  pub header_code1 : Option Text
  pub header_code2 : Option Text
  pub ordinal : Option Text
  pub district : Text
  pub construction_name : Option Text
  pub construction_code : Option Text
  pub object_name : Option Text
  pub object_code : Option Text
  pub code : Text
  pub title : Text

-- A number of the language: a natural number that it holds exactly, or the value of digits that it
-- does not, since they are not below 2 ^ 53; that value may be infinite.
pub data SourceNumber : Type 0 where
  exact : ℕ → SourceNumber
  inexact : Text → SourceNumber

-- `value || ""`.
abbrev pub or_empty : Option Text → Text
or_empty none = []
or_empty (some s) = s

-- `a == null && b != null ? b : a`.
abbrev pub or_else : Option Text → Option Text → Option Text
or_else none b = b
or_else (some s) b = some s

-- Older snapshots keep three of the fields under other names.
unfoldable pub normalize_source_data_fields : Estimate → Estimate
normalize_source_data_fields e = record e {
  document_set = or_else e.document_set e.header_code1;
  calculation_flags = or_else e.calculation_flags e.header_code2;
  summary_chapter_no = or_else e.summary_chapter_no e.ordinal;
}

abbrev pub at_least_one : ℕ → ℕ
at_least_one n = if leb 1 n then n else 1

-- `id.match(/^session_est_(\d+)$/)`, the digits.
unfoldable pub session_digits : Text → Option Text
unfolding drop_prefix
session_digits id = elim (drop_prefix (codes "session_est_") id) [
  | none ↦ none
  | some [] ↦ none
  | some (c ∷ cs) ↦ if every is_digit (c ∷ cs) then some (c ∷ cs) else none
]

abbrev seconds : Text → SourceNumber
seconds ds =
    if ltb (decimal_value ds) (2 ^ 53)
    then exact (at_least_one (decimal_value ds / 1000))
    else inexact ds

-- A number for the estimate: the stored one, or one from the digits of its identifier. The digits of
-- an identifier of the session are a time in milliseconds.
unfoldable pub derive_numeric_id : Estimate → SourceNumber
unfolding session_digits decimal_value
derive_numeric_id e = elim e.numeric_id [
  | some n ↦ exact n
  | none ↦ elim (session_digits e.id) [
    | some ds ↦ seconds ds
    | none ↦
        let ds = filter is_digit e.id in
        exact (if is_nonempty ds then at_least_one (decimal_value (drop (length ds - 9) ds)) else 1)
  ]
]

-- `large_text` is `String(number * 10)` where the product is not below 2 ^ 53.
module _ (large_text : SourceNumber → Text) where
  unfoldable pub times_ten_text : SourceNumber → Text
  unfolding digits
  times_ten_text (exact n) = if ltb (n * 10) (2 ^ 53) then digits (n * 10) else large_text (exact n)
  times_ten_text (inexact ds) = large_text (inexact ds)

  unfoldable pub serialize_header_line : Estimate → Text
  unfolding normalize_source_data_fields derive_numeric_id times_ten_text join
  serialize_header_line e =
      let n = normalize_source_data_fields e in
      let fields =
        times_ten_text (derive_numeric_id n)
        ∷ or_empty n.document_set
        ∷ or_empty n.calculation_flags
        ∷ []
        ∷ n.district
        ∷ []
        ∷ []
        ∷ []
        ∷ []
        ∷ [] in
      letter_estimate ∷ (join delimiter fields ++ b'*' ∷ [])

pub record Place : Type 0 where
  pub construction_name : Text
  pub construction_code : Text
  pub object_name : Text
  pub object_code : Text

-- `value != null`.
abbrev is_known : Option Text → Bool
is_known none = false
is_known (some s) = true

-- `getEstimateConstructionObjectFields`: the stored names, or those of the tree.
unfoldable pub construction_object_fields : Tree → Estimate → Place
construction_object_fields t e =
    if is_known e.construction_name
      || is_known e.construction_code
      || is_known e.object_name
      || is_known e.object_code
    then record {
      construction_name = or_empty e.construction_name;
      construction_code = or_empty e.construction_code;
      object_name = or_empty e.object_name;
      object_code = or_empty e.object_code;
    }
    else elim (find_object t e.object_id) [
      | none ↦ record {
        construction_name = [];
        construction_code = [];
        object_name = [];
        object_code = [];
      }
      | some o ↦ elim (find_construction t o.construction_id) [
        | none ↦ record {
          construction_name = [];
          construction_code = [];
          object_name = o.name;
          object_code = o.code;
        }
        | some c ↦ record {
          construction_name = c.name;
          construction_code = c.code;
          object_name = o.name;
          object_code = o.code;
        }
      ]
    ]

unfoldable pub serialize_construction_line : Tree → Estimate → Text
unfolding construction_object_fields join
serialize_construction_line t e =
    let place = construction_object_fields t e in
    let fields =
      []
      ∷ []
      ∷ place.construction_name
      ∷ place.construction_code
      ∷ place.object_code
      ∷ place.object_name
      ∷ []
      ∷ or_empty e.summary_chapter_no
      ∷ e.code
      ∷ e.title
      ∷ []
      ∷ []
      ∷ []
      ∷ [] in
    letter_construction ∷ (join delimiter fields ++ b'*' ∷ [])
