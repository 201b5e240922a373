-- ===== src/Calculation/Bounds.antt =====
-- What the counts of a calculation are bounded by (`estimateCalcProgress` and
-- `updateCalcProgressTarget` of web/app.js).
use new_a.Common.{
  ◌≤◌, Bool, true, false, List, [], ◌∷◌, filter, length, if◌then◌else◌, ◌===◌, ===_iff, is_space,
  ◌≡◌, refl, sym, ap, ◌∙◌, arith, inl, inr, Bool-cases,
}
use new_a.Calculation.{
  CalcLine, status_of, failed_status, dead_status, estimate_line_needs_gsn_calc,
  estimate_line_calc_counts_as_error, estimate_calc_terminal_status,
}
use new_a.Calculation.Progress.{
  count_lines, is_terminal, estimate_calc_progress, reset_line,
  reset_gsn_lines_for_table_calculation,
}

estimate_calc_terminal_status-failed : estimate_calc_terminal_status failed_status ≡ true
unfolding estimate_calc_terminal_status is_space
estimate_calc_terminal_status-failed = refl

estimate_calc_terminal_status-dead : estimate_calc_terminal_status dead_status ≡ true
unfolding estimate_calc_terminal_status is_space
estimate_calc_terminal_status-dead = refl

bool_apart : true ≡ false → ⊥
bool_apart h = ground (arith, h)

module _ {N : Type 0} (is_zero : N → Bool) where
  no_error :
      (l : CalcLine N)
      → status_of is_zero l === failed_status ≡ false
      → status_of is_zero l === dead_status ≡ false
      → estimate_line_calc_counts_as_error is_zero l ≡ true
      → is_terminal is_zero l ≡ true
  unfolding estimate_line_calc_counts_as_error
  no_error l other neither h =
      let e : estimate_line_calc_counts_as_error is_zero l ≡ false = rw (other, neither) refl in
      absurd (bool_apart (sym h ∙ e))

  error-is_terminal :
      (l : CalcLine N)
      → estimate_line_calc_counts_as_error is_zero l ≡ true
      → is_terminal is_zero l ≡ true
  error-is_terminal l h = elim (Bool-cases (status_of is_zero l === failed_status)) [
    | inl failed ↦
        ap estimate_calc_terminal_status ((===_iff (status_of is_zero l) failed_status).0 failed)
        ∙ estimate_calc_terminal_status-failed
    | inr other ↦ elim (Bool-cases (status_of is_zero l === dead_status)) [
      | inl dead ↦
          ap estimate_calc_terminal_status ((===_iff (status_of is_zero l) dead_status).0 dead)
          ∙ estimate_calc_terminal_status-dead
      | inr neither ↦ no_error l other neither h
    ]
  ]

  count_lines-le :
      (p q : CalcLine N → Bool) (ls : List (CalcLine N))
      → ((l : CalcLine N) → p l ≡ true → q l ≡ true)
      → count_lines is_zero p ls ≤ count_lines is_zero q ls
  count_lines-le p q [] h = omega arith
  count_lines-le p q (l ∷ ls) h = ground (arith, h l, count_lines-le p q ls h)

  count_lines-le-length :
      (p : CalcLine N → Bool) (ls : List (CalcLine N)) → count_lines is_zero p ls ≤ length ls
  count_lines-le-length p [] = omega arith
  count_lines-le-length p (l ∷ ls) = ground (arith, count_lines-le-length p ls)

  reset_line_waits :
      (zero_num : N) (l : CalcLine N)
      → (is_terminal is_zero (reset_line is_zero zero_num l) ≡ false)
        × (estimate_line_calc_counts_as_error is_zero (reset_line is_zero zero_num l) ≡ false)
  unfolding estimate_calc_terminal_status estimate_line_calc_counts_as_error is_space ◌===◌
  reset_line_waits zero_num l = (refl, refl)

  none_after_reset :
      (p : CalcLine N → Bool) (zero_num : N) (ls : List (CalcLine N))
      → ((l : CalcLine N) → p (reset_line is_zero zero_num l) ≡ false)
      → count_lines is_zero p (
          filter
            (estimate_line_needs_gsn_calc is_zero)
            (reset_gsn_lines_for_table_calculation is_zero zero_num false ls))
        ≡ 0
  unfolding reset_gsn_lines_for_table_calculation
  none_after_reset p zero_num [] h = refl
  none_after_reset p zero_num (l ∷ ls) h =
      elim (Bool-cases (estimate_line_needs_gsn_calc is_zero l)) [
        | inl needs ↦ rw needs (
            dropped (estimate_line_needs_gsn_calc is_zero (reset_line is_zero zero_num l)) _ _ (h l)
              (none_after_reset p zero_num ls h))
        | inr free ↦ rw (free, free) (none_after_reset p zero_num ls h)
      ]
    where
      dropped :
          (b : Bool) (x : CalcLine N) (xs : List (CalcLine N))
          → p x ≡ false
          → count_lines is_zero p xs ≡ 0
          → count_lines is_zero p (if b then x ∷ xs else xs) ≡ 0
      dropped true x xs k m = rw k m
      dropped false x xs k m = m

  -- The counts of an estimate: no more lines failed than are processed, no more are processed than are
  -- to be calculated, and after all lines were reset none is processed and none failed.
  pub estimate_calc_progress_bounds :
      (zero_num : N) (items : List (CalcLine N))
      → ((estimate_calc_progress is_zero items).errors
          ≤ (estimate_calc_progress is_zero items).processed)
        × ((estimate_calc_progress is_zero items).processed
            ≤ (estimate_calc_progress is_zero items).total)
        × ((estimate_calc_progress is_zero
              (reset_gsn_lines_for_table_calculation is_zero zero_num false items)).processed
            ≡ 0)
        × ((estimate_calc_progress is_zero
              (reset_gsn_lines_for_table_calculation is_zero zero_num false items)).errors
            ≡ 0)
  unfolding estimate_calc_progress
  estimate_calc_progress_bounds zero_num items =
      let calc_items = filter (estimate_line_needs_gsn_calc is_zero) items in
      (
        count_lines-le (estimate_line_calc_counts_as_error is_zero) (is_terminal is_zero) calc_items
            error-is_terminal,
        count_lines-le-length (is_terminal is_zero) calc_items,
        none_after_reset (is_terminal is_zero) zero_num items
            (λ l. (reset_line_waits zero_num l).0),
        none_after_reset (estimate_line_calc_counts_as_error is_zero) zero_num items
            (λ l. (reset_line_waits zero_num l).1),
      )
