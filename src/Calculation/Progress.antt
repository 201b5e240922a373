-- ===== src/Calculation/Progress.antt =====
-- How far the calculation of an estimate is (`estimateCalcProgress`, `updateCalcProgressTarget`,
-- `restartEstimateTableCalculation` and their neighbours in web/app.js), without the grand totals that
-- the same functions carry along.
use new_a.Common.{
  ℕ, suc, ◌+◌, ◌*◌, ◌/◌, Bool, false, not, ◌&&◌, ◌||◌, List, [], ◌∷◌, Option, none, some, filter,
  length, ltb, leb, ◌==◌, if◌then◌else◌, Text, ◌===◌, is_nonempty, trim, has, add, delete,
}
use new_a.UserPositions.Import.{or_text}
use new_a.Calculation.{
  CalcLine, status_of, queued_status, leased_status, estimate_line_needs_gsn_calc,
  estimate_line_calc_done, estimate_line_calc_counts_as_error, estimate_calc_terminal_status,
}

-- What the client shows of a calculation; a value that is missing is `none`, or 0 where 0 is read.
pub record Target : Type 0 where
  pub total : ℕ
  pub processed : ℕ
  pub errors : ℕ
  pub displayed : ℕ
  pub large_estimate : Option Bool

pub record Calculation : Type 0 where
  pub targets : Text → Option Target
  pub awaiting : List Text
  pub poll_blocked : List Text

-- The counts that the server or the lines report.
pub record Counts : Type 0 where
  pub total : ℕ
  pub processed : ℕ
  pub errors : ℕ
  pub done : Bool

abbrev pub line_threshold : ℕ
line_threshold = 250

unfoldable pub estimate_calc_target_key : Text → Text
unfolding trim
estimate_calc_target_key id = or_text (trim id) id

abbrev pub larger : ℕ → ℕ → ℕ
larger a b = if leb a b then b else a

abbrev pub smaller_of : ℕ → ℕ → ℕ
smaller_of a b = if leb a b then a else b

unfoldable pub set_target : Text → Option Target → Calculation → Calculation
unfolding ◌===◌
set_target key target c = record c { targets = λ x. if key === x then target else c.targets x }

unfoldable pub mark_awaiting_server : Text → Calculation → Calculation
unfolding estimate_calc_target_key add
mark_awaiting_server id c =
    let key = estimate_calc_target_key id in
    if is_nonempty key then record c { awaiting = add key c.awaiting } else c

unfoldable pub clear_awaiting_server : Text → Calculation → Calculation
unfolding estimate_calc_target_key delete
clear_awaiting_server id c =
    let key = estimate_calc_target_key id in
    if is_nonempty key then record c { awaiting = delete key c.awaiting } else c

abbrev is_unfinished : Option Target → Bool
is_unfinished none = false
is_unfinished (some t) = ltb 0 t.total && ltb t.processed t.total

module _ {N : Type 0} (is_zero : N → Bool) where
  abbrev pub count_lines : (CalcLine N → Bool) → List (CalcLine N) → ℕ
  count_lines test [] = 0
  count_lines test (l ∷ ls) = if test l then suc (count_lines test ls) else count_lines test ls

  unfoldable pub estimate_calc_progress_total : List (CalcLine N) → ℕ
  unfolding estimate_line_needs_gsn_calc
  estimate_calc_progress_total items = length (filter (estimate_line_needs_gsn_calc is_zero) items)

  abbrev pub is_terminal : CalcLine N → Bool
  is_terminal l = estimate_calc_terminal_status (status_of is_zero l)

  unfoldable pub estimate_calc_progress : List (CalcLine N) → Counts
  unfolding estimate_line_needs_gsn_calc estimate_calc_terminal_status
      estimate_line_calc_counts_as_error trim
  estimate_calc_progress items =
      let calc_items = filter (estimate_line_needs_gsn_calc is_zero) items in
      record {
        total = length calc_items;
        processed = count_lines is_terminal calc_items;
        errors = count_lines (estimate_line_calc_counts_as_error is_zero) calc_items;
        done = false;
      }

  abbrev pub is_waiting_status : Text → Bool
  is_waiting_status status =
      not (is_nonempty status) || status === queued_status || status === leased_status

  unfoldable pub estimate_has_in_flight_gsn_calc : List (CalcLine N) → Bool
  unfolding estimate_line_needs_gsn_calc trim ◌===◌
  estimate_has_in_flight_gsn_calc [] = false
  estimate_has_in_flight_gsn_calc (l ∷ ls) =
      (estimate_line_needs_gsn_calc is_zero l && is_waiting_status (status_of is_zero l))
      || estimate_has_in_flight_gsn_calc ls

  unfoldable pub estimate_calc_in_progress : Text → List (CalcLine N) → Calculation → Bool
  unfolding estimate_calc_target_key has estimate_has_in_flight_gsn_calc
  estimate_calc_in_progress id items c =
      let key = estimate_calc_target_key id in
      (is_nonempty key && has c.awaiting key)
      || is_unfinished (c.targets key)
      || estimate_has_in_flight_gsn_calc items

  abbrev some_terminal : List (CalcLine N) → Bool
  some_terminal [] = false
  some_terminal (l ∷ ls) =
      (estimate_line_needs_gsn_calc is_zero l && is_terminal l) || some_terminal ls

  unfoldable pub estimate_calc_awaiting_blocks_progress :
      Text → List (CalcLine N) → Calculation → Bool
  unfolding estimate_calc_target_key has estimate_line_needs_gsn_calc estimate_calc_terminal_status
      trim
  estimate_calc_awaiting_blocks_progress id items c =
      let key = estimate_calc_target_key id in
      if not (is_nonempty key) || not (has c.awaiting key) then false else not (some_terminal items)

  -- A line whose calculation is asked for anew.
  abbrev pub reset_line : N → CalcLine N → CalcLine N
  reset_line zero_num l = record l {
    calc_status = queued_status;
    calc_error = [];
    has_calc_json = false;
    unit_price = zero_num;
    unit_price_text = [];
    unit_price_index = [];
    total = zero_num;
    has_resources = false;
    children = 0;
    is_work = false;
  }

  unfoldable pub reset_gsn_lines_for_table_calculation :
      N → (preserve_done : Bool) → List (CalcLine N) → List (CalcLine N)
  unfolding estimate_line_needs_gsn_calc estimate_line_calc_done
  reset_gsn_lines_for_table_calculation zero_num preserve_done [] = []
  reset_gsn_lines_for_table_calculation zero_num preserve_done (l ∷ ls) =
      let rest = reset_gsn_lines_for_table_calculation zero_num preserve_done ls in
      if not (estimate_line_needs_gsn_calc is_zero l)
        || (preserve_done && estimate_line_calc_done is_zero l)
      then l ∷ rest
      else reset_line zero_num l ∷ rest

  abbrev fresh_target : ℕ → Target
  fresh_target total = record {
    total = total;
    processed = 0;
    errors = 0;
    displayed = 0;
    large_estimate = some (ltb line_threshold total);
  }

  unfoldable pub restart_estimate_table_calculation :
      Text → List (CalcLine N) → Calculation → Calculation
  unfolding estimate_calc_target_key estimate_calc_progress_total set_target mark_awaiting_server
      clear_awaiting_server
  restart_estimate_table_calculation id items c =
      let key = estimate_calc_target_key id in
      let total = estimate_calc_progress_total items in
      if ltb 0 total
      then mark_awaiting_server id (set_target key (some (fresh_target total)) c)
      else clear_awaiting_server id (set_target key none c)

  unfoldable pub prepare_estimate_table_calculation_state :
      Text → N → Bool → List (CalcLine N) → Calculation → List (CalcLine N) × Calculation
  unfolding reset_gsn_lines_for_table_calculation restart_estimate_table_calculation
      mark_awaiting_server add
  prepare_estimate_table_calculation_state id zero_num preserve_done items c =
      let reset = reset_gsn_lines_for_table_calculation zero_num preserve_done items in
      let marked = mark_awaiting_server id (restart_estimate_table_calculation id reset c) in
      (reset, record marked { poll_blocked = add id marked.poll_blocked })

  abbrev ensured : Option Target → ℕ → Target
  ensured none total = fresh_target total
  ensured (some t) total = record t { total = larger total t.total }

  unfoldable pub ensure_estimate_calc_progress_target :
      Text → List (CalcLine N) → Calculation → Calculation
  unfolding estimate_calc_target_key estimate_calc_progress_total set_target
  ensure_estimate_calc_progress_target id items c =
      let key = estimate_calc_target_key id in
      let total = estimate_calc_progress_total items in
      if total == 0 then c else set_target key (some (ensured (c.targets key) total)) c

-- `Math.round(x / y)` of natural numbers, with `y` above 0.
abbrev rounded : ℕ → ℕ → ℕ
rounded x y = (2 * x + y) / (2 * y)

unfoldable pub estimate_calc_progress_display_errors : Target → ℕ → ℕ
estimate_calc_progress_display_errors t displayed =
    if leb t.processed 0 || leb t.processed displayed
    then t.errors
    else smaller_of t.errors (rounded (t.errors * displayed) t.processed)

abbrev pub or_number : ℕ → ℕ → ℕ
or_number a b = if a == 0 then b else a

abbrev pub total_before : Option Target → ℕ
total_before none = 0
total_before (some t) = t.total

abbrev pub processed_before : Option Target → ℕ
processed_before none = 0
processed_before (some t) = t.processed

abbrev pub errors_before : Option Target → ℕ
errors_before none = 0
errors_before (some t) = t.errors

abbrev pub displayed_before : Option Target → ℕ
displayed_before none = 0
displayed_before (some t) = t.displayed

abbrev large_before : Option Target → Option Bool
large_before none = none
large_before (some t) = t.large_estimate

-- The new target, from the one before, the counts that are reported and those of the lines, and
-- `direct`, which says that only the report counts.
unfoldable pub next_target : Option Target → Counts → Counts → (direct : Bool) → Target
next_target previous progress from_items direct =
    let first = or_number from_items.total (or_number progress.total (total_before previous)) in
    let total =
      if ltb first (total_before previous)
        && ltb (processed_before previous) (total_before previous)
      then total_before previous
      else first in
    let processed =
      if direct
      then progress.processed
      else larger (larger progress.processed from_items.processed) (processed_before previous) in
    let errors =
      if direct
      then progress.errors
      else larger (larger progress.errors from_items.errors) (errors_before previous) in
    let done = progress.done || leb total processed in
    record {
      total = total;
      processed = processed;
      errors = errors;
      displayed =
          if done || leb processed (displayed_before previous)
          then processed
          else smaller_of processed (displayed_before previous);
      large_estimate = large_before previous;
    }

-- `updateCalcProgressTarget` with the lines of the estimate.
unfoldable pub update_calc_progress_target :
    {N : Type 0} (is_zero : N → Bool) (id : Text) (progress : Counts) (items : List (CalcLine N))
    (progress_only : Bool)
    → Calculation
    → Calculation
unfolding estimate_calc_target_key has estimate_calc_progress next_target set_target
    clear_awaiting_server
update_calc_progress_target is_zero id progress items progress_only c =
    let key = estimate_calc_target_key id in
    let next =
      next_target (c.targets key) progress (estimate_calc_progress is_zero items)
        (progress_only || (is_nonempty key && has c.awaiting key)) in
    if next.total == 0
    then c
    else (if progress.done
        then clear_awaiting_server id (set_target key (some next) c)
        else set_target key (some next) c)
