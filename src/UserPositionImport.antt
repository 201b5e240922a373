-- ===== src/UserPositionImport.antt =====
-- The dialog that imports user positions from selected estimates: `userPositionImportState` of
-- web/app.js and the operations on the selection that its tree of check boxes edits.
pub mod Selected
pub mod Apply
pub mod Normal
pub mod Apart
pub mod Refinement
pub mod Dialog
mod Tests
use new_a.Common.{
  Bool, true, false, not, ◌&&◌, ◌||◌, List, [], ◌∷◌, map, Option, none, some, ◌≡◌, if◌then◌else◌,
  filter, Text, ◌===◌, is_nonempty, has, add, delete, add_all, delete_all,
}
use new_a.ProjectTree.{
  Construction, Object, Estimate, Tree, Kind, all, construction, object, estimate, other,
  construction_key, object_key, estimate_key, find_object, find_estimate,
  object_ids_of_construction, collect_estimate_ids_for_scope, sort_by_code,
}

pub record Selection : Type 0 where
  pub whole : Bool
  pub constructions : List Text
  pub objects : List Text
  pub estimates : List Text
  pub root_expanded : Bool
  pub expanded_constructions : List Text
  pub expanded_objects : List Text

pub reset_state : Selection
reset_state = record {
  whole = false;
  constructions = [];
  objects = [];
  estimates = [];
  root_expanded = true;
  expanded_constructions = [];
  expanded_objects = [];
}

-- What a click on an arrow of the dialog names.
pub data Branch : Type 0 where
  root : Branch
  construction_branch object_branch : Text → Branch

toggle : Text → List Text → List Text
toggle id set = if has set id then delete id set else add id set

pub toggle_expanded : Branch → Selection → Selection
unfolding toggle
toggle_expanded root s = record s { root_expanded = not s.root_expanded }
toggle_expanded (construction_branch id) s = record s {
  expanded_constructions = toggle id s.expanded_constructions;
}
toggle_expanded (object_branch id) s = record s { expanded_objects = toggle id s.expanded_objects }

-- `set.size > 0`.
abbrev pub is_inhabited : List Text → Bool
is_inhabited [] = false
is_inhabited (x ∷ xs) = true

pub has_selection : Selection → Bool
has_selection s =
    s.whole || is_inhabited s.constructions || is_inhabited s.objects || is_inhabited s.estimates

pub is_construction_selected : Selection → Text → Bool
is_construction_selected s id = s.whole || has s.constructions id

pub is_object_selected : Selection → Object → Bool
unfolding is_construction_selected
is_object_selected s o = is_construction_selected s o.construction_id || has s.objects o.id

pub is_estimate_selected : Selection → Estimate → Object → Bool
unfolding is_object_selected
is_estimate_selected s e o = is_object_selected s o || has s.estimates e.id

-- `state.estimates.filter((estimate) => estimate.objectId === objectId)`, the identifiers.
pub estimate_ids_of_object : Tree → Text → List Text
estimate_ids_of_object t object_id =
    map estimate_key (filter (λ e. e.object_id === object_id) t.estimates)

pub prune_under_object : Tree → Text → Selection → Selection
unfolding estimate_ids_of_object
prune_under_object t object_id s = record s {
  estimates = delete_all (estimate_ids_of_object t object_id) s.estimates;
}

pub prune_objects : Tree → List Text → Selection → Selection
unfolding prune_under_object
prune_objects t [] s = s
prune_objects t (id ∷ ids) s =
    prune_objects t ids (prune_under_object t id (record s { objects = delete id s.objects }))

pub prune_under_construction : Tree → Text → Selection → Selection
unfolding prune_objects
prune_under_construction t id = prune_objects t (object_ids_of_construction t id)

pub sibling_objects : Tree → Object → List Text
sibling_objects t o =
    map object_key
      (filter (λ x. x.construction_id === o.construction_id && not (x.id === o.id)) t.objects)

pub sibling_estimates : Tree → Object → Estimate → List Text
sibling_estimates t o e =
    map estimate_key (filter (λ x. x.object_id === o.id && not (x.id === e.id)) t.estimates)

module _ (code_le : Text → Text → Bool) where
  -- `userPositionImportConstructions`: those with an estimate below, sorted by code.
  pub import_constructions : Tree → List Construction
  import_constructions t = sort_by_code code_le (
      filter (λ c. is_inhabited (collect_estimate_ids_for_scope t construction c.id))
        t.constructions)

  pub expand_all_into_constructions : Tree → Selection → Selection
  unfolding import_constructions
  expand_all_into_constructions t s = record s {
    constructions = add_all (map construction_key (import_constructions t)) s.constructions;
    objects = [];
    estimates = [];
  }

  -- `if (userPositionImportState.all) { expand…(); userPositionImportState.all = false; }`.
  pub leave_all : Tree → Selection → Selection
  unfolding expand_all_into_constructions
  leave_all t s =
      if s.whole then record (expand_all_into_constructions t s) { whole = false } else s

  pub apply_construction : Tree → Text → Bool → Selection → Selection
  unfolding leave_all prune_under_construction
  apply_construction t id checked s =
      let s' = leave_all t s in
      let constructions' =
        if checked then add id s'.constructions else delete id s'.constructions in
      prune_under_construction t id (record s' { constructions = constructions' })

  -- The body of the branch for objects, once the object is found.
  pub apply_object : Tree → Text → Object → Bool → Selection → Selection
  unfolding leave_all is_construction_selected sibling_objects prune_under_object
  apply_object t id o checked s =
      let s' = leave_all t s in
      let split =
        if is_construction_selected s' o.construction_id
        then record s' {
          constructions = delete o.construction_id s'.constructions;
          objects = add_all (sibling_objects t o) s'.objects;
        }
        else s' in
      let objects' = if checked then add id split.objects else delete id split.objects in
      prune_under_object t id (record split { objects = objects' })

  -- The body of the branch for estimates, once the estimate and its object are found.
  pub apply_estimate : Tree → Text → Estimate → Object → Bool → Selection → Selection
  unfolding leave_all is_object_selected sibling_objects sibling_estimates
  apply_estimate t id e o checked s =
      let s' = leave_all t s in
      let split =
        if is_construction_selected s' o.construction_id
        then record s' {
          constructions = delete o.construction_id s'.constructions;
          objects = add_all (sibling_objects t o) s'.objects;
          estimates = add_all (sibling_estimates t o e) s'.estimates;
        }
        else if is_object_selected s' o
        then record s' {
          objects = delete o.id s'.objects;
          estimates = add_all (sibling_estimates t o e) s'.estimates;
        }
        else s' in
      record split {
        estimates = if checked then add id split.estimates else delete id split.estimates;
      }

  pub apply_selection : Tree → Kind → Text → Bool → Selection → Selection
  unfolding apply_construction apply_object apply_estimate
  apply_selection t all id checked s = record s {
    constructions = [];
    objects = [];
    estimates = [];
    whole = checked;
  }
  apply_selection t construction id checked s = apply_construction t id checked s
  apply_selection t object id checked s = elim (find_object t id) [
    | none ↦ s
    | some o ↦ apply_object t id o checked s
  ]
  apply_selection t estimate id checked s = elim (find_estimate t id) [
    | none ↦ s
    | some e ↦ elim (find_object t e.object_id) [
      | none ↦ s
      | some o ↦ apply_estimate t id e o checked s
    ]
  ]
  apply_selection t other id checked s = s

-- `constructions.forEach((id) => collectEstimateIdsForScope(kind, id).forEach((e) => ids.add(e)))`.
pub add_scopes : Tree → Kind → List Text → List Text → List Text
unfolding collect_estimate_ids_for_scope
add_scopes t kind [] ids = ids
add_scopes t kind (id ∷ scope) ids =
    add_scopes t kind scope (add_all (collect_estimate_ids_for_scope t kind id) ids)

pub collect_estimate_ids : Tree → Selection → List Text
unfolding add_scopes
collect_estimate_ids t s =
    if s.whole
    then filter is_nonempty (map estimate_key t.estimates)
    else add_all s.estimates
        (add_scopes t object s.objects (add_scopes t construction s.constructions []))
