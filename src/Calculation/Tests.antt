-- ===== src/Calculation/Tests.antt =====
-- The calculation of web/app.js at concrete states.
use new_a.Common.{
  ℕ, ◌≤◌, Bool, true, false, List, [], ◌∷◌, Option, none, some, ◌==◌, Text, codes, ◌===◌, is_space,
  ◌≡◌, refl,
}
use new_a.UserPositions.Import.{position}
use new_a.Calculation.{CalcLine}
use new_a.Calculation.Progress.{
  Target, Counts, estimate_calc_progress, reset_gsn_lines_for_table_calculation,
  estimate_has_in_flight_gsn_calc,
}
use new_a.Calculation.Bounds.{estimate_calc_progress_bounds}
use new_a.Calculation.Resolver.{Status, build_estimate_items_calc_lookup, resolve_all}

abbrev is_zero : ℕ → Bool
is_zero n = n == 0

abbrev line : Text → Text → Text → CalcLine ℕ
line id code status = record {
  id = id;
  line_type = position;
  source = codes "GSN";
  raw_text = [];
  raw_fields = none;
  source_code = code;
  record_code = [];
  code = code;
  code_after_calc = [];
  name = [];
  unit = [];
  calc_status = status;
  calc_error = [];
  has_calc_json = true;
  unit_price = 0;
  unit_price_text = [];
  unit_price_index = [];
  total = 0;
  has_resources = false;
  children = 0;
  is_work = false;
}

abbrev three_lines : List (CalcLine ℕ)
three_lines =
    line (codes "x") (codes "1") (codes "done ")
    ∷ line (codes "y") (codes "1") (codes "failed")
    ∷ line (codes "z") (codes "2") (codes "queued")
    ∷ []

abbrev statuses : List Status
statuses =
    record { line_id = codes "x"; code = codes "1" }
    ∷ record { line_id = codes "gone"; code = codes "1" }
    ∷ record { line_id = codes "gone2"; code = codes " 2" }
    ∷ []

abbrev before : Option Target
before =
    some (record { total = 5; processed = 3; errors = 1; displayed = 2; large_estimate = none })

abbrev report : Counts
report = record { total = 4; processed = 2; errors = 0; done = false }

counts_of_three :
    estimate_calc_progress is_zero three_lines
    ≡ record { total = 3; processed = 2; errors = 1; done = false }
unfolding estimate_calc_progress is_space ◌===◌
counts_of_three = refl

one_in_flight : estimate_has_in_flight_gsn_calc is_zero three_lines ≡ true
unfolding estimate_has_in_flight_gsn_calc estimate_calc_progress is_space ◌===◌
one_in_flight = refl

-- The second status is about a line that is gone, and gets the line of the first one.
handed_twice :
    (resolve_all statuses (build_estimate_items_calc_lookup is_zero three_lines)).0
    ≡ some 0 ∷ some 0 ∷ some 2 ∷ []
unfolding resolve_all build_estimate_items_calc_lookup is_space ◌===◌
handed_twice = refl

estimate_calc_progress_bounds_example :
    ((estimate_calc_progress is_zero three_lines).errors
      ≤ (estimate_calc_progress is_zero three_lines).processed)
    × ((estimate_calc_progress is_zero three_lines).processed
        ≤ (estimate_calc_progress is_zero three_lines).total)
    × ((estimate_calc_progress is_zero
          (reset_gsn_lines_for_table_calculation is_zero 0 false three_lines)).processed
        ≡ 0)
    × ((estimate_calc_progress is_zero
          (reset_gsn_lines_for_table_calculation is_zero 0 false three_lines)).errors
        ≡ 0)
estimate_calc_progress_bounds_example = estimate_calc_progress_bounds is_zero 0 three_lines
