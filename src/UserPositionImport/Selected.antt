-- ===== src/UserPositionImport/Selected.antt =====
-- What the helpers of the import selection do to the membership of the nodes of a well-formed tree,
-- and the estimates that `collectUserPositionImportEstimateIds` (web/app.js) returns.
use new_a.Common.{
  Bool, true, not, ◌&&◌, ◌||◌, List, [], ◌∷◌, map, some, ◌≡◌, refl, sym, ◌∙◌, arith, filter, Text,
  ◌===◌, ===_iff, has, delete, add_all, has-nil, has-add_all, has-delete, has-delete_all,
}
use new_a.ProjectTree.{
  Object, Estimate, Tree, construction, object, construction_key, estimate_key,
  object_ids_of_construction, collect_estimate_ids_for_scope, find_by,
}
use new_a.ProjectTree.Keys.{key-find_by, has-map-find_by}
use new_a.ProjectTree.Scope.{
  IsWellFormed, Node, construction_of, object_id-eq, has-estimates, has-objects, has-collect_object,
  has-collect_construction, has-sort_by_code, has-filter_nonempty,
}
use new_a.UserPositionImport.{
  Selection, is_inhabited, is_estimate_selected, estimate_ids_of_object, prune_under_object,
  prune_objects, sibling_objects, sibling_estimates, import_constructions, add_scopes,
  collect_estimate_ids,
}

is_inhabited_of_has : (xs : List Text) (y : Text) → has xs y ≡ true → is_inhabited xs ≡ true
unfolding has
is_inhabited_of_has [] y h = cc
is_inhabited_of_has (x ∷ xs) y h = refl

-- A filter keeps a member's key.
has-filter_of_find_by {ℓ} :
    {A : Type ℓ} (key : A → Text) (p : A → Bool) (xs : List A) (id : Text) {x : A}
    → find_by key id xs ≡ some x
    → p x ≡ true
    → has (map key (filter p xs)) id ≡ true
unfolding has
has-filter_of_find_by key p [] id h k = cc
has-filter_of_find_by key p (y ∷ ys) id {x} h k =
    ground (arith, ===_iff (key y) id, has-filter_of_find_by key p ys id {x = x})

module _ {t : Tree} (w : IsWellFormed t) {e : Estimate} {o : Object} (n : Node t e o) where
  pub has-estimate_ids_of_object :
      (id : Text) → has (estimate_ids_of_object t id) e.id ≡ e.object_id === id
  unfolding estimate_ids_of_object
  has-estimate_ids_of_object id = has-estimates w n (λ x. x.object_id === id)

  pub has-object_ids_of_construction :
      (id : Text) → has (object_ids_of_construction t id) e.object_id ≡ o.construction_id === id
  unfolding object_ids_of_construction
  has-object_ids_of_construction id = has-objects w n (λ x. x.construction_id === id)

  pub has-sibling_objects :
      (p : Object)
      → has (sibling_objects t p) e.object_id
        ≡ (o.construction_id === p.construction_id && not (o.id === p.id))
  unfolding sibling_objects
  has-sibling_objects p =
      has-objects w n (λ x. x.construction_id === p.construction_id && not (x.id === p.id))

  pub has-sibling_estimates :
      (p : Object) (d : Estimate)
      → has (sibling_estimates t p d) e.id ≡ (e.object_id === p.id && not (e.id === d.id))
  unfolding sibling_estimates
  has-sibling_estimates p d = has-estimates w n (λ x. x.object_id === p.id && not (x.id === d.id))

  pub has-prune_objects :
      (ids : List Text) (s : Selection)
      → has (prune_objects t ids s).estimates e.id
        ≡ (not (has ids e.object_id) && has s.estimates e.id)
  unfolding has prune_objects prune_under_object
  has-prune_objects [] s = ground arith
  has-prune_objects (id ∷ ids) s = ground (
    arith,
    has-prune_objects ids (prune_under_object t id (record s { objects = delete id s.objects })),
    has-delete_all (estimate_ids_of_object t id) s.estimates e.id,
    has-estimate_ids_of_object id,
    ===_iff id e.object_id,
    ===_iff e.object_id id,
  )

  -- Every construction that holds an estimate is listed.
  pub has-import_constructions :
      (code_le : Text → Text → Bool)
      → has (map construction_key (import_constructions code_le t)) o.construction_id ≡ true
  unfolding import_constructions
  has-import_constructions code_le =
      let (c, found) = construction_of w e.object_id o n.object_found in
      has-sort_by_code code_le _ o.construction_id
      ∙ has-filter_of_find_by construction_key
          (λ x. is_inhabited (collect_estimate_ids_for_scope t construction x.id)) t.constructions
          o.construction_id found
          (is_inhabited_of_has _ e.id (
            has-collect_construction w n c.id
            ∙ (===_iff _ _).1
                (sym (key-find_by construction_key o.construction_id t.constructions found))))

-- Pruning takes the objects of the construction out, and touches no other set.
pub prune_objects-objects :
    (t : Tree) (ids : List Text) (s : Selection) (x : Text)
    → has (prune_objects t ids s).objects x ≡ (not (has ids x) && has s.objects x)
unfolding has prune_objects prune_under_object
prune_objects-objects t [] s x = ground arith
prune_objects-objects t (id ∷ ids) s x = ground (
  arith,
  prune_objects-objects t ids (prune_under_object t id (record s { objects = delete id s.objects }))
      x,
  has-delete id s.objects x,
)

pub prune_objects_same :
    (t : Tree) (ids : List Text) (s : Selection)
    → ((prune_objects t ids s).whole ≡ s.whole)
      × ((prune_objects t ids s).constructions ≡ s.constructions)
unfolding prune_objects prune_under_object
prune_objects_same t [] s = (refl, refl)
prune_objects_same t (id ∷ ids) s =
    prune_objects_same t ids (prune_under_object t id (record s { objects = delete id s.objects }))

module _ {t : Tree} (w : IsWellFormed t) {e : Estimate} {o : Object} (n : Node t e o) where
  has-add_scopes_construction :
      (scope ids : List Text)
      → has (add_scopes t construction scope ids) e.id
        ≡ (has scope o.construction_id || has ids e.id)
  unfolding add_scopes has
  has-add_scopes_construction [] ids = refl
  has-add_scopes_construction (id ∷ scope) ids = ground (
    arith,
    has-add_scopes_construction scope
        (add_all (collect_estimate_ids_for_scope t construction id) ids),
    has-add_all (collect_estimate_ids_for_scope t construction id) ids e.id,
    has-collect_construction w n id,
    ===_iff id o.construction_id,
    ===_iff o.construction_id id,
  )

  has-add_scopes_object :
      (scope ids : List Text)
      → has (add_scopes t object scope ids) e.id ≡ (has scope o.id || has ids e.id)
  unfolding add_scopes has
  has-add_scopes_object [] ids = refl
  has-add_scopes_object (id ∷ scope) ids = ground (
    arith,
    has-add_scopes_object scope (add_all (collect_estimate_ids_for_scope t object id) ids),
    has-add_all (collect_estimate_ids_for_scope t object id) ids e.id,
    has-collect_object w n id,
    object_id-eq w n,
    ===_iff id o.id,
    ===_iff e.object_id id,
  )

  -- The estimates collected for the import are exactly those that the dialog shows as selected:
  -- of a well-formed tree, the result holds the identifier of an estimate if and only if the check
  -- box of that estimate is on.
  pub has-collect_estimate_ids :
      (s : Selection) → has (collect_estimate_ids t s) e.id ≡ is_estimate_selected s e o
  unfolding collect_estimate_ids is_estimate_selected
  has-collect_estimate_ids s =
      let from_constructions = add_scopes t construction s.constructions [] in
      let from_objects = add_scopes t object s.objects from_constructions in
      ground (
        arith,
        has-filter_nonempty (map estimate_key t.estimates) e.id,
        has-map-find_by estimate_key t.estimates e.id {x = e} n.estimate_found,
        w.estimate_named e.id e n.estimate_found,
        has-add_all s.estimates from_objects e.id,
        has-add_scopes_object s.objects from_constructions,
        has-add_scopes_construction s.constructions [],
        has-nil e.id,
      )
