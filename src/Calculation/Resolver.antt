-- ===== src/Calculation/Resolver.antt =====
-- Finding the line that a reported status is about: `buildEstimateItemsCalcLookup`,
-- `createEstimateCalcStatusResolver` and `resolveEstimateItemForCalcStatus` (web/app.js). A line, which
-- the program holds by reference, is its position in the list of lines.
pub mod Pools
use new_a.Common.{
  ℕ, zero, suc, Bool, true, false, not, ◌&&◌, ◌||◌, List, [], ◌∷◌, ◌++◌, Option, none, some,
  if◌then◌else◌, Text, ◌===◌, is_nonempty, trim,
}
use new_a.Calculation.{CalcLine, estimate_line_needs_gsn_calc, estimate_record_lookup_code}

-- The maps by identifier and by code; a code without a pool has an empty one.
pub record Lookup : Type 0 where
  pub by_id : Text → Option ℕ
  pub pools : Text → List ℕ

pub record Status : Type 0 where
  pub line_id : Text
  pub code : Text

unfoldable pub put_id : Text → ℕ → Lookup → Lookup
unfolding ◌===◌
put_id id at k = record k { by_id = λ x. if id === x then some at else k.by_id x }

unfoldable pub set_pool : Text → List ℕ → Lookup → Lookup
unfolding ◌===◌
set_pool code pool k = record k { pools = λ x. if code === x then pool else k.pools x }

abbrev pub empty_lookup : Lookup
empty_lookup = record { by_id = λ id. none; pools = λ code. [] }

module _ {N : Type 0} (is_zero : N → Bool) where
  -- The line is calculated and has a code.
  abbrev pub is_pooled : CalcLine N → Bool
  is_pooled l =
      estimate_line_needs_gsn_calc is_zero l && is_nonempty (estimate_record_lookup_code is_zero l)

  abbrev pub with_id : ℕ → CalcLine N → Lookup → Lookup
  with_id at l k = if is_nonempty l.id then put_id l.id at k else k

  abbrev pub with_code : ℕ → CalcLine N → Lookup → Lookup
  with_code at l k =
      if is_pooled l
      then set_pool (estimate_record_lookup_code is_zero l)
          (k.pools (estimate_record_lookup_code is_zero l) ++ at ∷ []) k
      else k

  -- The loop over the lines, the first of which is at the given position.
  unfoldable pub add_lines : ℕ → List (CalcLine N) → Lookup → Lookup
  unfolding put_id set_pool estimate_line_needs_gsn_calc estimate_record_lookup_code
  add_lines at [] k = k
  add_lines at (l ∷ ls) k = add_lines (suc at) ls (with_code at l (with_id at l k))

  unfoldable pub build_estimate_items_calc_lookup : List (CalcLine N) → Lookup
  unfolding add_lines
  build_estimate_items_calc_lookup items = add_lines 0 items empty_lookup

abbrev pub take_pool : Text → List ℕ → Lookup → Option ℕ × Lookup
take_pool code [] k = (none, k)
take_pool code (at ∷ rest) k = (some at, set_pool code rest k)

abbrev pub take_code : Text → Lookup → Option ℕ × Lookup
take_code [] k = (none, k)
take_code (c ∷ code) k = take_pool (c ∷ code) (k.pools (c ∷ code)) k

abbrev pub or_by_code : Option ℕ → Text → Lookup → Option ℕ × Lookup
or_by_code none code k = take_code code k
or_by_code (some at) code k = (some at, k)

-- One call of the resolver.
unfoldable pub resolve_status : Status → Lookup → Option ℕ × Lookup
unfolding trim set_pool
resolve_status s k = or_by_code (k.by_id s.line_id) (trim s.code) k

unfoldable pub resolve_all : List Status → Lookup → List (Option ℕ) × Lookup
unfolding resolve_status
resolve_all [] k = ([], k)
resolve_all (s ∷ ss) k =
    let first = resolve_status s k in
    let rest = resolve_all ss (first.1) in (first.0 ∷ rest.0, rest.1)

abbrev first_of : List ℕ → Option ℕ
first_of [] = none
first_of (at ∷ rest) = some at

abbrev peek_code : Text → Lookup → Option ℕ
peek_code [] k = none
peek_code (c ∷ code) k = first_of (k.pools (c ∷ code))

abbrev or_peek : Option ℕ → Text → Lookup → Option ℕ
or_peek none code k = peek_code code k
or_peek (some at) code k = some at

unfoldable pub resolve_estimate_item_for_calc_status : Lookup → Status → Option ℕ
unfolding trim
resolve_estimate_item_for_calc_status k s = or_peek (k.by_id s.line_id) (trim s.code) k
