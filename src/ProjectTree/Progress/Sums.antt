-- ===== src/ProjectTree/Progress/Sums.antt =====
-- `getScopeCalcEstimateStats` (web/app.js) of a construction and of its objects.
use new_a.Common.{
  ℕ, ◌+◌, Bool, false, ◌&&◌, ◌||◌, List, [], ◌∷◌, map, Option, none, some, Text, ◌===◌, ===_iff,
  filter, is_nonempty, has, count, ◌≡◌, refl, sym, ap, ◌∙◌, arith,
}
use new_a.ProjectTree.{
  Estimate, Tree, Kind, construction, object, estimate_key, object_ids_of_construction,
  collect_estimate_ids_for_scope,
}
use new_a.ProjectTree.Progress.{
  ProgressMap, Stats, get_tree_calc_progress, has_calc, has_calculated, count_stats, running_stats,
  or_counted, scope_calc_estimate_stats,
}

abbrev pub AllDistinct : List Text → Type 0
AllDistinct [] = Unit
AllDistinct (x ∷ xs) = (has xs x ≡ false) × AllDistinct xs

abbrev pub sum_over : (Text → ℕ) → List Text → ℕ
sum_over f [] = 0
sum_over f (x ∷ xs) = f x + sum_over f xs

-- How many of the estimates that `q` keeps have an identifier that passes the test.
abbrev counted : (Text → Bool) → (Estimate → Bool) → List Estimate → ℕ
counted p q es = count p (filter is_nonempty (map estimate_key (filter q es)))

counted_or :
    (p : Text → Bool) (q q₁ q₂ : Estimate → Bool) (es : List Estimate)
    → ((e : Estimate) → q e ≡ (q₁ e || q₂ e))
    → ((e : Estimate) → (q₁ e && q₂ e) ≡ false)
    → counted p q es ≡ counted p q₁ es + counted p q₂ es
counted_or p q q₁ q₂ [] h k = omega arith
counted_or p q q₁ q₂ (e ∷ es) h k = ground (arith, h e, k e, counted_or p q q₁ q₂ es h k)

counted_none : (p : Text → Bool) (es : List Estimate) → counted p (λ e. has [] e.object_id) es ≡ 0
unfolding has
counted_none p [] = refl
counted_none p (e ∷ es) = counted_none p es

has-cons : (id : Text) (ids : List Text) (y : Text) → has (id ∷ ids) y ≡ (y === id || has ids y)
unfolding has
has-cons id ids y = ground (arith, ===_iff id y, ===_iff y id)

apart :
    (id : Text) (ids : List Text) (y : Text) → has ids id ≡ false → (y === id && has ids y) ≡ false
apart id ids y h = ground (arith, ===_iff y id, h)

counted-sum_over :
    (p : Text → Bool) (es : List Estimate) (ids : List Text)
    → AllDistinct ids
    → counted p (λ e. has ids e.object_id) es
      ≡ sum_over (λ id. counted p (λ e. e.object_id === id) es) ids
counted-sum_over p es [] h = counted_none p es
counted-sum_over p es (id ∷ ids) h = omega (
  arith,
  counted_or p (λ e. has (id ∷ ids) e.object_id) (λ e. e.object_id === id)
      (λ e. has ids e.object_id) es (λ e. has-cons id ids e.object_id)
      (λ e. apart id ids e.object_id h.0),
  counted-sum_over p es ids h.1,
)

collect_of_construction :
    (t : Tree) (id : Text)
    → collect_estimate_ids_for_scope t construction id
      ≡ filter is_nonempty (
          map estimate_key
            (filter (λ e. has (object_ids_of_construction t id) e.object_id) t.estimates))
unfolding collect_estimate_ids_for_scope
collect_of_construction t id = refl

collect_of_object :
    (t : Tree) (id : Text)
    → collect_estimate_ids_for_scope t object id
      ≡ filter is_nonempty (map estimate_key (filter (λ e. e.object_id === id) t.estimates))
unfolding collect_estimate_ids_for_scope
collect_of_object t id = refl

abbrev pub total_of : Option Stats → ℕ
total_of none = 0
total_of (some stats) = stats.total

abbrev pub calculated_of : Option Stats → ℕ
calculated_of none = 0
calculated_of (some stats) = stats.calculated

-- No report of a running calculation counts for the node.
abbrev pub IsIdle : ProgressMap → Kind → Text → Type 0
IsIdle m kind id = running_stats (get_tree_calc_progress m kind id) ≡ none

stats_of_construction :
    (t : Tree) (m : ProgressMap) (id : Text)
    → scope_calc_estimate_stats t m construction id
      ≡ or_counted
          (running_stats (get_tree_calc_progress m construction id))
          (count_stats t (collect_estimate_ids_for_scope t construction id))
unfolding scope_calc_estimate_stats
stats_of_construction t m id = refl

stats_of_object :
    (t : Tree) (m : ProgressMap) (id : Text)
    → scope_calc_estimate_stats t m object id
      ≡ or_counted
          (running_stats (get_tree_calc_progress m object id))
          (count_stats t (collect_estimate_ids_for_scope t object id))
unfolding scope_calc_estimate_stats
stats_of_object t m id = refl

count_stats_lem :
    (t : Tree) (ids : List Text)
    → count_stats t ids
      ≡ record { total = count (has_calc t) ids; calculated = count (has_calculated t) ids }
unfolding count_stats
count_stats_lem t ids = refl

construction_stats :
    (t : Tree) (m : ProgressMap) (id : Text)
    → IsIdle m construction id
    → scope_calc_estimate_stats t m construction id
      ≡ some (record {
        total =
            counted
              (has_calc t)
              (λ e. has (object_ids_of_construction t id) e.object_id)
              t.estimates;
        calculated =
            counted
              (has_calculated t)
              (λ e. has (object_ids_of_construction t id) e.object_id)
              t.estimates;
      })
construction_stats t m id h =
    rw (stats_of_construction t m id, h, collect_of_construction t id)
      (ap some (count_stats_lem t _))

object_stats :
    (t : Tree) (m : ProgressMap) (id : Text)
    → IsIdle m object id
    → scope_calc_estimate_stats t m object id
      ≡ some (record {
        total = counted (has_calc t) (λ e. e.object_id === id) t.estimates;
        calculated = counted (has_calculated t) (λ e. e.object_id === id) t.estimates;
      })
object_stats t m id h =
    rw (stats_of_object t m id, h, collect_of_object t id) (ap some (count_stats_lem t _))

sum_over_eq :
    (f g : Text → ℕ) (ids : List Text)
    → ((id : Text) → f id ≡ g id)
    → sum_over f ids ≡ sum_over g ids
sum_over_eq f g [] h = refl
sum_over_eq f g (id ∷ ids) h = omega (arith, h id, sum_over_eq f g ids h)

-- The counts of a construction are the sums of those of its objects: where its objects have distinct
-- identifiers and neither it nor any object has a running calculation, the number of estimates that
-- have lines to calculate, and the number of those that are calculated, are the sums over the
-- objects.
pub scope_calc_estimate_stats-sum_over :
    (t : Tree) (m : ProgressMap) (id : Text)
    → AllDistinct (object_ids_of_construction t id)
    → IsIdle m construction id
    → ((o : Text) → IsIdle m object o)
    → (total_of (scope_calc_estimate_stats t m construction id)
        ≡ sum_over
            (λ o. total_of (scope_calc_estimate_stats t m object o))
            (object_ids_of_construction t id))
      × (calculated_of (scope_calc_estimate_stats t m construction id)
          ≡ sum_over
              (λ o. calculated_of (scope_calc_estimate_stats t m object o))
              (object_ids_of_construction t id))
scope_calc_estimate_stats-sum_over t m id distinct idle idle_objects =
    let ids = object_ids_of_construction t id in
    (
      ap total_of (construction_stats t m id idle)
          ∙ counted-sum_over (has_calc t) t.estimates ids distinct
          ∙ sum_over_eq _ _ ids (λ o. sym (ap total_of (object_stats t m o (idle_objects o)))),
      ap calculated_of (construction_stats t m id idle)
          ∙ counted-sum_over (has_calculated t) t.estimates ids distinct
          ∙ sum_over_eq _ _ ids (λ o. sym (ap calculated_of (object_stats t m o (idle_objects o)))),
    )
