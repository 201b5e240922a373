-- ===== src/UserPositionImport/Refinement.antt =====
-- The whole of `applyUserPositionImportSelection` (web/app.js) against the set of estimates that it
-- is meant to select.
use new_a.Common.{
  Bool, ◌≡◌, refl, ap, ◌∙◌, arith, if◌then◌else◌, Text, ===_iff, Option-cases, inl, inr, has-nil,
}
use new_a.ProjectTree.{
  Object, Estimate, Tree, Kind, all, construction, object, estimate, other, find_object,
  find_estimate, object_key, estimate_key,
}
use new_a.ProjectTree.Keys.{key-find_by}
use new_a.ProjectTree.Scope.{
  IsWellFormed, Node, object_of, object_id-eq, same_object, same_estimate,
}
use new_a.UserPositionImport.{Selection, is_estimate_selected, apply_selection}
use new_a.UserPositionImport.Apply.{
  IsNormal, targets, chosen, is_estimate_selected_lem, chosen-apply_construction,
  chosen-apply_object, chosen-apply_estimate,
}

module _ (code_le : Text → Text → Bool) {t : Tree} (w : IsWellFormed t) where
  chosen-apply_selection :
      (kind : Kind) (id : Text) (checked : Bool) (s : Selection) {e : Estimate} {o : Object}
      → IsNormal t s
      → Node t e o
      → chosen (apply_selection code_le t kind id checked s) e o
        ≡ (if targets kind id e o then checked else chosen s e o)
  unfolding apply_selection
  chosen-apply_selection all id checked s {e} {o} h n =
      ground (arith, has-nil o.construction_id, has-nil o.id, has-nil e.id)
  chosen-apply_selection construction id checked s h n =
      chosen-apply_construction code_le w id checked s n
  chosen-apply_selection object id checked s {e} {o} h n = elim (Option-cases (find_object t id)) [
    | inl missing ↦ ground (arith, missing, n.object_found, object_id-eq w n, ===_iff o.id id)
    | inr (p, found) ↦
        let named : p.id ≡ id = key-find_by object_key id t.objects found in
        ground (
          arith,
          found,
          named,
          chosen-apply_object code_le w p checked s h n (same_object w id n found),
        )
  ]
  chosen-apply_selection estimate id checked s {e} {o} h n =
      elim (Option-cases (find_estimate t id)) [
        | inl missing ↦ ground (arith, missing, n.estimate_found, ===_iff e.id id)
        | inr (d, found) ↦
            let named : d.id ≡ id = key-find_by estimate_key id t.estimates found in
            let (p, holder) = object_of w id d found in
            let m : Node t d p = record {
              estimate_found = ap (find_estimate t) named ∙ found;
              object_found = holder;
            } in
            ground (
              arith,
              found,
              named,
              holder,
              chosen-apply_estimate code_le w d p checked s h m n
                  (same_object w d.object_id n holder) (same_estimate w id n found),
            )
      ]
  chosen-apply_selection other id checked s h n = refl

  -- The dialog selects what its user asks for. In a well-formed tree and a normal selection, a
  -- change of the check box of the whole tree, of a construction, of an object or of an estimate to
  -- `checked` gives exactly the estimates below that node the state `checked`, and leaves every
  -- other estimate as it was, however the code regroups its three sets to say so.
  pub is_estimate_selected-apply_selection :
      (kind : Kind) (id : Text) (checked : Bool) (s : Selection) {e : Estimate} {o : Object}
      → IsNormal t s
      → Node t e o
      → is_estimate_selected (apply_selection code_le t kind id checked s) e o
        ≡ (if targets kind id e o then checked else is_estimate_selected s e o)
  is_estimate_selected-apply_selection kind id checked s {e} {o} h n = cc (
    chosen-apply_selection kind id checked s h n,
    is_estimate_selected_lem s e o,
    is_estimate_selected_lem (apply_selection code_le t kind id checked s) e o,
  )
