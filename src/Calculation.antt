-- ===== src/Calculation.antt =====
-- The calculation of the lines of an estimate by the server: which lines are calculated and how far
-- one is (`estimateLineNeedsGsnCalc`, `estimateLineCalcCountsAsError` and the other tests on one line
-- in web/app.js).
pub mod Progress
pub mod Resolver
pub mod Bounds
mod Tests
use Prim.Native.String.{String}
use new_a.Common.{
  ℕ, Bool, true, false, not, ◌&&◌, ◌||◌, List, [], ◌∷◌, Option, none, some, if◌then◌else◌, ◌==◌,
  Text, codes, ◌===◌, is_nonempty, trim,
}
use new_a.Licenses.{to_lower_case}
use new_a.PositionCode.{extract_position_cipher}
use new_a.UserPositions.Import.{
  LineType, position, section, subsection, other_line, or_text, estimate_line_is_structural,
  is_user_catalog_cipher_code,
}

-- The fields that the raw text of a line spells out (`parseSourceDataPositionLineFieldsFromRawText`).
pub record RawFields : Type 0 where
  pub has_total : Bool
  pub has_name : Bool
  pub has_unit : Bool

-- A line of an estimate. `code_after_calc` is `estimateLineGsnDisplayCodeAfterCalc(item)`, and a
-- missing text is empty.
pub record CalcLine (N : Type 0) : Type 0 where
  pub id : Text
  pub line_type : LineType
  pub source : Text
  pub raw_text : Text
  pub raw_fields : Option RawFields
  pub source_code : Text
  pub record_code : Text
  pub code : Text
  pub code_after_calc : Text
  pub name : Text
  pub unit : Text
  pub calc_status : Text
  pub calc_error : Text
  pub has_calc_json : Bool
  pub unit_price : N
  pub unit_price_text : Text
  pub unit_price_index : Text
  pub total : N
  pub has_resources : Bool
  pub children : ℕ
  pub is_work : Bool

abbrev pub is_position_line : LineType → Bool
is_position_line position = true
is_position_line _ = false

abbrev pub done_status : Text
done_status = codes "done"

abbrev pub queued_status : Text
queued_status = codes "queued"

abbrev pub leased_status : Text
leased_status = codes "leased"

abbrev pub failed_status : Text
failed_status = codes "failed"

abbrev pub dead_status : Text
dead_status = codes "dead"

-- `is_zero` is `!Number(value)`, which also holds of NaN.
module _ {N : Type 0} (is_zero : N → Bool) where
  abbrev pub status_of : CalcLine N → Text
  status_of l = trim l.calc_status

  unfoldable pub estimate_record_fetch_code : CalcLine N → Text
  unfolding trim
  estimate_record_fetch_code l = trim (or_text l.record_code (or_text l.source_code l.code))

  unfoldable pub estimate_line_source_code : CalcLine N → Text
  unfolding trim
  estimate_line_source_code l = trim (or_text l.source_code (or_text l.record_code l.code))

  unfoldable pub estimate_line_is_gsn : CalcLine N → Bool
  unfolding to_lower_case trim estimate_line_is_structural estimate_record_fetch_code ◌===◌
  estimate_line_is_gsn l =
      let source = to_lower_case l.source in
      if source === codes "gsn"
      then true
      else (if source === codes "user_position"
            || estimate_line_is_structural l.line_type
            || not (is_position_line l.line_type)
          then false
          else is_nonempty (trim l.raw_text) && is_nonempty (estimate_record_fetch_code l))

  unfoldable pub estimate_line_calc_done : CalcLine N → Bool
  unfolding trim ◌===◌
  estimate_line_calc_done l = status_of l === done_status

  unfoldable pub estimate_line_shows_gsn_partial : CalcLine N → Bool
  unfolding trim estimate_line_is_gsn estimate_line_is_structural estimate_line_calc_done ◌===◌
  estimate_line_shows_gsn_partial l =
      if not (estimate_line_is_gsn l) || estimate_line_is_structural l.line_type
      then false
      else (if estimate_line_calc_done l
          then false
          else (if is_nonempty (status_of l)
              then not (status_of l === done_status)
              else (if is_nonempty (trim l.name) || is_nonempty (trim l.unit)
                  then false
                  else (if not (is_zero l.total) || not (is_zero l.unit_price)
                      then false
                      else l.children == 0))))

  unfoldable pub estimate_line_display_code : CalcLine N → Text
  unfolding trim estimate_line_shows_gsn_partial estimate_line_source_code extract_position_cipher
      estimate_line_is_gsn estimate_line_calc_done
  estimate_line_display_code l =
      if estimate_line_shows_gsn_partial l
      then or_text (extract_position_cipher (estimate_line_source_code l))
          (estimate_line_source_code l)
      else (if estimate_line_is_gsn l && estimate_line_calc_done l
          then l.code_after_calc
          else trim l.code)

  unfoldable pub estimate_record_lookup_code : CalcLine N → Text
  unfolding estimate_record_fetch_code estimate_line_display_code
  estimate_record_lookup_code l =
      or_text (estimate_record_fetch_code l) (estimate_line_display_code l)

  unfoldable pub estimate_line_needs_gsn_calc : CalcLine N → Bool
  unfolding estimate_line_is_gsn estimate_line_is_structural estimate_record_lookup_code
  estimate_line_needs_gsn_calc l =
      if not (is_position_line l.line_type)
        || not (estimate_line_is_gsn l)
        || estimate_line_is_structural l.line_type
      then false
      else is_nonempty (estimate_record_lookup_code l)

  unfoldable pub estimate_line_user_catalog_cipher : CalcLine N → Bool
  unfolding estimate_line_is_gsn estimate_line_is_structural extract_position_cipher
      estimate_line_source_code estimate_record_lookup_code is_user_catalog_cipher_code
  estimate_line_user_catalog_cipher l =
      if not (estimate_line_is_gsn l)
        || not (is_position_line l.line_type)
        || estimate_line_is_structural l.line_type
      then false
      else is_user_catalog_cipher_code (
          or_text (extract_position_cipher (estimate_line_source_code l))
            (estimate_record_lookup_code l))

  abbrev lacks_field : Option RawFields → Bool
  lacks_field none = true
  lacks_field (some f) = not f.has_total || not f.has_name || not f.has_unit

  unfoldable pub estimate_line_user_catalog_needs_lookup : CalcLine N → Bool
  unfolding estimate_line_user_catalog_cipher
  estimate_line_user_catalog_needs_lookup l =
      if not (estimate_line_user_catalog_cipher l) then false else lacks_field l.raw_fields

  unfoldable pub estimate_line_calc_counts_as_error : CalcLine N → Bool
  unfolding trim estimate_line_user_catalog_cipher estimate_line_user_catalog_needs_lookup ◌===◌
  estimate_line_calc_counts_as_error l =
      if not (status_of l === failed_status) && not (status_of l === dead_status)
      then false
      else (if estimate_line_user_catalog_cipher l
          then estimate_line_user_catalog_needs_lookup l
          else true)

unfoldable pub estimate_calc_terminal_status : Text → Bool
unfolding trim ◌===◌
estimate_calc_terminal_status status =
    trim status === done_status || trim status === failed_status || trim status === dead_status

unfoldable pub is_local_calc_status_stale_for_server : (local_status server_status : Text) → Bool
unfolding trim estimate_calc_terminal_status ◌===◌
is_local_calc_status_stale_for_server local_status server_status =
    if not (is_nonempty (trim server_status)) || trim local_status === trim server_status
    then false
    else ((trim local_status === queued_status
          || trim local_status === leased_status
          || not (is_nonempty (trim local_status)))
        && estimate_calc_terminal_status (trim server_status))
