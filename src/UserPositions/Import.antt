-- ===== src/UserPositions/Import.antt =====
-- Adding the positions of selected estimates to the user's own ones
-- (`importUserPositionsFromSelectedEstimates` and the functions on one line in web/app.js).
pub mod Codes
use Prim.Native.String.{String}
use new_a.Common.{
  ℕ, zero, suc, Bool, true, false, not, ◌&&◌, ◌||◌, List, [], ◌∷◌, ◌++◌, map, Option, none, some,
  filter, if◌then◌else◌, ◌==◌, Text, is_nonempty, trim, has, add, add_all,
}
use new_a.Number.{Arithmetic}
use new_a.PositionCode.{extract_position_cipher}
use new_a.UserPositions.{UserPosition, Catalog, save_user_positions}

-- `item.type`; `other_line` is any further string.
pub data LineType : Type 0 where
  position section subsection other_line : LineType

-- The fields that a line's raw text spells out.
pub record ParsedFields (N : Type 0) : Type 0 where
  pub name : Text
  pub unit : Text
  pub has_total : Bool
  pub total : N

-- A line of an estimate; the codes are those that `estimateLineNormalizedSourceCode` and
-- `estimateRecordLookupCode` find, and `parsed` is what `parseSourceDataPositionLineFieldsFromRawText`
-- reads. A missing number is 0 here, as it is where it is used.
pub record EstimateLine (N : Type 0) : Type 0 where
  pub line_type : LineType
  pub source_code : Text
  pub lookup_code : Text
  pub code : Text
  pub name : Text
  pub unit : Text
  pub unit_price : N
  pub quantity : N
  pub parsed : Option (ParsedFields N)

pub record Candidate (N : Type 0) : Type 0 where
  pub code : Text
  pub name : Text
  pub unit : Text
  pub cost : N

-- `a || b` on strings.
abbrev pub or_text : Text → Text → Text
or_text [] b = b
or_text (c ∷ a) b = c ∷ a

-- The letter Т, Cyrillic or Latin.
abbrev is_letter_t : ℕ → Bool
is_letter_t c = c == 0x422 || c == b'T'

abbrev has_letter_t : Text → Bool
has_letter_t [] = false
has_letter_t (c ∷ []) = is_letter_t c
has_letter_t (c ∷ d ∷ cs) = is_letter_t c || is_letter_t d

unfoldable pub is_user_catalog_cipher_code : Text → Bool
unfolding extract_position_cipher trim
is_user_catalog_cipher_code code = has_letter_t (trim (or_text (extract_position_cipher code) code))

unfoldable pub estimate_line_is_structural : LineType → Bool
estimate_line_is_structural section = true
estimate_line_is_structural subsection = true
estimate_line_is_structural _ = false

abbrev is_position : LineType → Bool
is_position position = true
is_position _ = false

module _ {N : Type 0} where
  abbrev pub line_code : EstimateLine N → Text
  line_code l = or_text l.source_code (or_text l.lookup_code l.code)

  unfoldable pub is_user_position_line : EstimateLine N → Bool
  unfolding trim estimate_line_is_structural is_user_catalog_cipher_code
  is_user_position_line l =
      is_position l.line_type
      && not (estimate_line_is_structural l.line_type)
      && is_user_catalog_cipher_code (trim (line_code l))

  abbrev parsed_name : Option (ParsedFields N) → Text
  parsed_name none = []
  parsed_name (some p) = p.name

  abbrev parsed_unit : Option (ParsedFields N) → Text
  parsed_unit none = []
  parsed_unit (some p) = p.unit

-- `is_negative` and `is_positive` are `value < 0` and `value > 0`.
module _ (a : Arithmetic) (is_negative is_positive : a.Num → Bool) where
  abbrev valid_or_zero : a.Num → a.Num
  valid_or_zero cost = if not (a.is_finite cost) || is_negative cost then a.zero_num else cost

  abbrev total_cost : Option (ParsedFields a.Num) → a.Num → a.Num → a.Num
  total_cost none quantity cost = cost
  total_cost (some p) quantity cost =
      if not p.has_total
      then cost
      else (if is_positive quantity then a.over p.total quantity else p.total)

  abbrev cost_of_line : EstimateLine a.Num → a.Num
  cost_of_line l =
      let cost = valid_or_zero l.unit_price in
      valid_or_zero (if a.is_zero cost then total_cost l.parsed l.quantity cost else cost)

  unfoldable pub candidate_from_line : EstimateLine a.Num → Option (Candidate a.Num)
  unfolding trim is_user_catalog_cipher_code
  candidate_from_line l =
      let code = trim (line_code l) in
      let name = trim (or_text l.name (parsed_name l.parsed)) in
      if not (is_nonempty code) || not (is_user_catalog_cipher_code code) || not (is_nonempty name)
      then none
      else some (record {
        code = code;
        name = name;
        unit = trim (or_text l.unit (parsed_unit l.parsed));
        cost = cost_of_line l;
      })

-- The loops over the lines: `seen` is `seenCodes`.
pub record Collected (N : Type 0) : Type 0 where
  pub seen : List Text
  pub added : List (UserPosition N)
  pub made : ℕ

module _ (a : Arithmetic) (is_negative is_positive : a.Num → Bool) (new_id : ℕ → Text) where
  abbrev pub collect_candidate : Option (Candidate a.Num) → Collected a.Num → Collected a.Num
  collect_candidate none c = c
  collect_candidate (some k) c = if has c.seen k.code then c else record {
    seen = add k.code c.seen;
    added =
        c.added
        ++ record { id = new_id c.made; code = k.code; name = k.name; unit = k.unit; cost = k.cost }
          ∷ [];
    made = suc c.made;
  }

  abbrev pub candidate_of : EstimateLine a.Num → Option (Candidate a.Num)
  candidate_of l =
      if is_user_position_line l then candidate_from_line a is_negative is_positive l else none

  unfoldable pub collect_lines : List (EstimateLine a.Num) → Collected a.Num → Collected a.Num
  unfolding has add is_user_position_line candidate_from_line
  collect_lines [] c = c
  collect_lines (l ∷ ls) c = collect_lines ls (collect_candidate (candidate_of l) c)

  -- `none` is an estimate that could not be fetched.
  unfoldable pub collect_estimates :
      List (Option (List (EstimateLine a.Num))) → Collected a.Num → Collected a.Num
  unfolding collect_lines
  collect_estimates [] c = c
  collect_estimates (none ∷ es) c = collect_estimates es c
  collect_estimates (some lines ∷ es) c = collect_estimates es (collect_lines lines c)

  unfoldable pub known_codes : List (UserPosition a.Num) → List Text
  unfolding trim add_all
  known_codes items = add_all (filter is_nonempty (map (λ p. trim p.code) items)) []

  abbrev pub store_added : List (UserPosition a.Num) → ℕ → Catalog a.Num → Catalog a.Num
  store_added [] made s = s
  store_added (p ∷ ps) made s =
      save_user_positions (record s { items = s.items ++ p ∷ ps; made = made })

  unfoldable pub import_user_positions :
      List (Option (List (EstimateLine a.Num))) → Catalog a.Num → Catalog a.Num
  unfolding collect_estimates known_codes save_user_positions
  import_user_positions estimates s =
      let c =
        collect_estimates estimates
          (record { seen = known_codes s.items; added = []; made = s.made }) in
      store_added c.added c.made s
