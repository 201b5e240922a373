-- ===== src/ProjectTree/Progress.antt =====
-- How many estimates below a node of the tree are calculated: `getTreeCalcProgress`,
-- `setTreeCalcProgress`, `isEstimateFullyCalculated` and `getScopeCalcEstimateStats` (web/app.js).
pub mod Sums
pub mod Reports
mod Tests
use Prim.Native.String.{String}
use new_a.Common.{
  ℕ, zero, suc, ◌+◌, Bool, true, false, not, ◌&&◌, List, [], ◌∷◌, ◌++◌, Option, none, some, ltb,
  leb, if◌then◌else◌, Text, codes, ◌===◌, is_nonempty, count,
}
use new_a.ProjectTree.{
  Estimate, Tree, Kind, all, construction, object, estimate, other, find_estimate,
  collect_estimate_ids_for_scope,
}

-- What the server reported on a running calculation of a node.
pub record Progress : Type 0 where
  pub done : Bool
  pub estimates_total : ℕ
  pub estimates_done : ℕ

abbrev kind_text : Kind → Text
kind_text all = codes "all"
kind_text construction = codes "construction"
kind_text object = codes "object"
kind_text estimate = codes "estimate"
kind_text other = []

-- `${kind}:${id}`.
unfoldable pub scope_key : Kind → Text → Text
scope_key kind id = kind_text kind ++ b':' ∷ id

-- `state.treeCalcProgress`, by the key of the scope.
abbrev pub ProgressMap : Type 0
ProgressMap = List (Text × Progress)

unfoldable pub get_key : ProgressMap → Text → Option Progress
unfolding ◌===◌
get_key [] key = none
get_key (entry ∷ m) key = if entry.0 === key then some (entry.1) else get_key m key

unfoldable pub delete_key : Text → ProgressMap → ProgressMap
unfolding ◌===◌
delete_key key [] = []
delete_key key (entry ∷ m) =
    let rest = delete_key key m in if entry.0 === key then rest else entry ∷ rest

unfoldable pub get_tree_calc_progress : ProgressMap → Kind → Text → Option Progress
unfolding get_key scope_key
get_tree_calc_progress m kind id = get_key m (scope_key kind id)

unfoldable pub set_tree_calc_progress : Kind → Text → Option Progress → ProgressMap → ProgressMap
unfolding delete_key scope_key
set_tree_calc_progress kind id none m = delete_key (scope_key kind id) m
set_tree_calc_progress kind id (some progress) m =
    (scope_key kind id, progress) ∷ delete_key (scope_key kind id) m

unfoldable pub is_fully_calculated : Estimate → Bool
is_fully_calculated e =
    if leb e.calc_lines_total 0 then true else leb e.calc_lines_total e.calc_lines_done

pub record Stats : Type 0 where
  pub total : ℕ
  pub calculated : ℕ

-- The estimate of an identifier is there and has lines to calculate.
abbrev pub has_calc : Tree → Text → Bool
has_calc t id = elim (find_estimate t id) [ none ↦ false | some e ↦ ltb 0 e.calc_lines_total ]

abbrev pub has_calculated : Tree → Text → Bool
has_calculated t id = elim (find_estimate t id) [
  | none ↦ false
  | some e ↦ ltb 0 e.calc_lines_total && is_fully_calculated e
]

-- The counts over the estimates with lines to calculate.
unfoldable pub count_stats : Tree → List Text → Stats
unfolding is_fully_calculated
count_stats t ids = record {
  total = count (has_calc t) ids;
  calculated = count (has_calculated t) ids;
}

-- The report of a running calculation, if there is one.
abbrev pub running_stats : Option Progress → Option Stats
running_stats none = none
running_stats (some progress) =
    if not progress.done && ltb 0 progress.estimates_total
    then some (record { total = progress.estimates_total; calculated = progress.estimates_done })
    else none

abbrev pub or_counted : Option Stats → Stats → Option Stats
or_counted none stats = some stats
or_counted (some running) stats = some running

unfoldable pub scope_calc_estimate_stats : Tree → ProgressMap → Kind → Text → Option Stats
unfolding get_tree_calc_progress collect_estimate_ids_for_scope count_stats
scope_calc_estimate_stats t m estimate id = none
scope_calc_estimate_stats t m kind id =
    or_counted (running_stats (get_tree_calc_progress m kind id))
      (count_stats t (collect_estimate_ids_for_scope t kind id))
