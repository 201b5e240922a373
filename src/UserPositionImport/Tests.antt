-- ===== src/UserPositionImport/Tests.antt =====
-- Runs of the import selection (web/app.js), and its theorems at a small tree.
use Prim.Native.String.{String}
use new_a.Common
use new_a.Common.{
  Bool, true, false, List, [], ◌∷◌, map, Option, none, some, ◌≡◌, refl, arith, if◌then◌else◌, leb,
  Text, codes, ◌===◌, has, add, add_all, length,
}
use new_a.ProjectTree.{Object, Estimate, Tree, all, object, estimate, sort_by_code}
use new_a.ProjectTree.Scope.{IsWellFormed, Node}
use new_a.UserPositionImport.{
  Selection, reset_state, toggle_expanded, root, has_selection, is_estimate_selected,
  apply_selection, collect_estimate_ids,
}
use new_a.UserPositionImport.Apply.{IsNormal, targets}
use new_a.UserPositionImport.Refinement.{is_estimate_selected-apply_selection}
use new_a.UserPositionImport.Apart.{IsApart, apply_selection-IsApart}
use new_a.UserPositionImport.Dialog.{Click, run_clicks, last_click, collect_estimate_ids-run_clicks}

abbrev first_object : Object
first_object = record {
  id = codes "o1";
  construction_id = codes "c1";
  code = codes "01";
  name = [];
}

abbrev second_object : Object
second_object = record {
  id = codes "o2";
  construction_id = codes "c1";
  code = codes "02";
  name = [];
}

abbrev plan : String → String → Estimate
plan id object_id = record {
  id = codes id;
  object_id = codes object_id;
  calc_lines_total = 0;
  calc_lines_done = 0;
}

abbrev tree : Tree
tree = record {
  constructions = record { id = codes "c1"; code = codes "1"; name = [] } ∷ [];
  objects = first_object ∷ second_object ∷ [];
  estimates = plan "e1" "o1" ∷ plan "e2" "o1" ∷ plan "e3" "o2" ∷ [];
}

abbrev by_length : Text → Text → Bool
by_length a b = leb (length a) (length b)

abbrev clicks : List Click
clicks =
    record { kind = all; id = []; checked = true }
    ∷ record { kind = estimate; id = codes "e2"; checked = false }
    ∷ []

collected :
    collect_estimate_ids tree (run_clicks by_length tree clicks reset_state)
    ≡ codes "e3" ∷ codes "e1" ∷ []
unfolding collect_estimate_ids run_clicks apply_selection reset_state sort_by_code ◌===◌ has add_all
    Common.delete
collected = refl

expanded_twice : toggle_expanded root (toggle_expanded root reset_state) ≡ reset_state
unfolding toggle_expanded reset_state
expanded_twice = refl

nothing_selected : has_selection reset_state ≡ false
unfolding has_selection reset_state
nothing_selected = refl

tree-IsWellFormed : IsWellFormed tree
unfolding has ◌===◌
tree-IsWellFormed = record {
  unique_objects = ground arith;
  unique_estimates = ground arith;
  object_known = λ id e h. ground arith;
  construction_known = λ id o h. ground arith;
  estimate_named = λ id e h. ground arith;
}

second-Node : Node tree (plan "e2" "o1") first_object
unfolding ◌===◌
second-Node = record { estimate_found = refl; object_found = refl }

construction_only : Selection
construction_only = record reset_state { constructions = codes "c1" ∷ [] }

construction_only-IsNormal : IsNormal tree construction_only
unfolding construction_only reset_state has
construction_only-IsNormal = record {
  objects_normal = λ e o n p. refl;
  estimates_normal = λ e o n p. refl;
}

is_estimate_selected-apply_selection_example :
    is_estimate_selected
      (apply_selection by_length tree object (codes "o1") false construction_only)
      (plan "e2" "o1")
      first_object
    ≡ (if targets object (codes "o1") (plan "e2" "o1") first_object
        then false
        else is_estimate_selected construction_only (plan "e2" "o1") first_object)
is_estimate_selected-apply_selection_example =
    is_estimate_selected-apply_selection by_length tree-IsWellFormed object (codes "o1") false
      construction_only construction_only-IsNormal second-Node

construction_only-IsApart : IsApart tree construction_only
unfolding construction_only reset_state has ◌===◌
construction_only-IsApart = record {
  normal = construction_only-IsNormal;
  objects_apart = λ o found. ground arith;
  whole_alone = λ x. refl;
}

apply_selection-IsApart_example :
    IsApart tree (apply_selection by_length tree estimate (codes "e2") false construction_only)
apply_selection-IsApart_example =
    apply_selection-IsApart by_length tree-IsWellFormed estimate (codes "e2") false
      construction_only construction_only-IsApart

collect_estimate_ids-run_clicks_example :
    has (collect_estimate_ids tree (run_clicks by_length tree clicks reset_state)) (codes "e2")
    ≡ last_click (plan "e2" "o1") first_object clicks false
collect_estimate_ids-run_clicks_example =
    collect_estimate_ids-run_clicks by_length tree-IsWellFormed clicks second-Node
