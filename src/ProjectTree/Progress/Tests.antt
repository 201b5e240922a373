-- ===== src/ProjectTree/Progress/Tests.antt =====
-- The counts of calculated estimates of web/app.js in a small tree.
use new_a.Common.{ℕ, false, [], ◌∷◌, some, ◌≡◌, refl, Text, codes, ◌===◌, has}
use new_a.ProjectTree.{Object, Estimate, Tree, construction, object, object_ids_of_construction}
use new_a.ProjectTree.Progress.{Progress, get_tree_calc_progress, scope_calc_estimate_stats}
use new_a.ProjectTree.Progress.Sums.{
  sum_over, total_of, calculated_of, scope_calc_estimate_stats-sum_over,
}

abbrev house : Object
house = record { id = codes "o1"; construction_id = codes "c"; code = []; name = [] }

abbrev road : Object
road = record { id = codes "o2"; construction_id = codes "c"; code = []; name = [] }

abbrev estimate_of : Text → Text → ℕ → Estimate
estimate_of id object_id done = record {
  id = id;
  object_id = object_id;
  calc_lines_total = 4;
  calc_lines_done = done;
}

abbrev site : Tree
site = record {
  constructions = record { id = codes "c"; code = []; name = [] } ∷ [];
  objects = house ∷ road ∷ [];
  estimates =
      estimate_of (codes "e1") (codes "o1") 4
      ∷ estimate_of (codes "e2") (codes "o2") 3
      ∷ estimate_of (codes "e3") (codes "o2") 4
      ∷ [];
}

counts_of_site :
    scope_calc_estimate_stats site [] construction (codes "c")
    ≡ some (record { total = 3; calculated = 2 })
unfolding scope_calc_estimate_stats ◌===◌ has
counts_of_site = refl

scope_calc_estimate_stats-sum_over_example :
    (total_of (scope_calc_estimate_stats site [] construction (codes "c"))
      ≡ sum_over
          (λ o. total_of (scope_calc_estimate_stats site [] object o))
          (object_ids_of_construction site (codes "c")))
    × (calculated_of (scope_calc_estimate_stats site [] construction (codes "c"))
        ≡ sum_over
            (λ o. calculated_of (scope_calc_estimate_stats site [] object o))
            (object_ids_of_construction site (codes "c")))
unfolding object_ids_of_construction get_tree_calc_progress ◌===◌ has
scope_calc_estimate_stats-sum_over_example =
    scope_calc_estimate_stats-sum_over site [] (codes "c") (refl, (refl, tt)) refl (λ o. refl)

abbrev report : Progress
report = record { done = false; estimates_total = 2; estimates_done = 1 }
