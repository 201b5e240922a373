-- ===== src/UserPositionImport/Normal.antt =====
-- Normal selections and `applyUserPositionImportSelection` (web/app.js).
use new_a.Common.{
  Bool, false, ◌&&◌, ◌||◌, ◌≡◌, ap, ◌∙◌, arith, if◌then◌else◌, Text, ===_iff, has, add, delete,
  add_all, has-nil, has-add, has-delete, has-add_all, has-delete_all, Option-cases, inl, inr,
}
use new_a.ProjectTree.{
  Object, Estimate, Tree, Kind, all, construction, object, estimate, other, find_object,
  find_estimate, object_ids_of_construction, object_key, estimate_key,
}
use new_a.ProjectTree.Keys.{key-find_by}
use new_a.ProjectTree.Scope.{
  IsWellFormed, Node, object_of, object_id-eq, same_object, same_estimate,
}
use new_a.UserPositionImport.{
  Selection, estimate_ids_of_object, sibling_objects, sibling_estimates, leave_all,
  apply_construction, apply_object, apply_estimate, apply_selection,
}
use new_a.UserPositionImport.Selected.{
  has-estimate_ids_of_object, has-object_ids_of_construction, has-sibling_objects,
  has-sibling_estimates, has-prune_objects, prune_objects-objects, prune_objects_same,
}
use new_a.UserPositionImport.Apply.{IsNormal, leave_all-IsNormal}

-- The two clauses of `IsNormal` at one node, as one fact about Booleans.
abbrev NormalAt : Selection → Estimate → Object → Type 0
NormalAt s e o =
    ((has s.constructions o.construction_id && has s.objects o.id) ≡ false)
    × (((has s.constructions o.construction_id || has s.objects o.id) && has s.estimates e.id)
        ≡ false)

module _ {t : Tree} {s : Selection} where
  IsNormal-at : IsNormal t s → {e : Estimate} {o : Object} → Node t e o → NormalAt s e o
  IsNormal-at h {e} {o} n = ground (arith, h.objects_normal e o n, h.estimates_normal e o n)

  IsNormal-of_at : ((e : Estimate) (o : Object) → Node t e o → NormalAt s e o) → IsNormal t s
  IsNormal-of_at f = record {
    objects_normal = λ e o n p. ground (arith, f e o n);
    estimates_normal = λ e o n p. ground (arith, f e o n);
  }

module _ (code_le : Text → Text → Bool) {t : Tree} (w : IsWellFormed t) where
  apply_construction-IsNormal :
      (id : Text) (checked : Bool) (s : Selection) {e : Estimate} {o : Object}
      → IsNormal t s
      → Node t e o
      → NormalAt (apply_construction code_le t id checked s) e o
  unfolding apply_construction
  apply_construction-IsNormal id checked s {e} {o} h n =
      let s' = leave_all code_le t s in
      let cs = if checked then add id s'.constructions else delete id s'.constructions in
      let m = record s' { constructions = cs } in
      let ids = object_ids_of_construction t id in
      ground (
        arith,
        IsNormal-at (leave_all-IsNormal code_le w s h) n,
        has-add id s'.constructions o.construction_id,
        has-delete id s'.constructions o.construction_id,
        prune_objects_same t ids m,
        prune_objects-objects t ids m o.id,
        has-prune_objects w n ids m,
        has-object_ids_of_construction w n id,
        object_id-eq w n,
        ===_iff id o.construction_id,
        ===_iff o.construction_id id,
      )

  apply_object-IsNormal :
      (p : Object) (checked : Bool) (s : Selection) {e : Estimate} {o : Object}
      → IsNormal t s
      → Node t e o
      → (o.id ≡ p.id → o ≡ p)
      → NormalAt (apply_object code_le t p.id p checked s) e o
  unfolding apply_object
  apply_object-IsNormal p checked s {e} {o} h n same =
      let s' = leave_all code_le t s in
      let objects' = add_all (sibling_objects t p) s'.objects in
      ground (
        arith,
        IsNormal-at (leave_all-IsNormal code_le w s h) n,
        same,
        has-delete p.construction_id s'.constructions o.construction_id,
        has-add_all (sibling_objects t p) s'.objects o.id,
        has-sibling_objects w n p,
        has-add p.id objects' o.id,
        has-delete p.id objects' o.id,
        has-add p.id s'.objects o.id,
        has-delete p.id s'.objects o.id,
        has-delete_all (estimate_ids_of_object t p.id) s'.estimates e.id,
        has-estimate_ids_of_object w n p.id,
        object_id-eq w n,
        ===_iff p.id o.id,
        ===_iff o.id p.id,
        ===_iff e.object_id p.id,
        ===_iff p.construction_id o.construction_id,
        ===_iff o.construction_id p.construction_id,
      )

  apply_estimate-IsNormal :
      (d : Estimate) (p : Object) (checked : Bool) (s : Selection) {e : Estimate} {o : Object}
      → IsNormal t s
      → Node t d p
      → Node t e o
      → (o.id ≡ p.id → o ≡ p)
      → (e.id ≡ d.id → e ≡ d)
      → NormalAt (apply_estimate code_le t d.id d p checked s) e o
  unfolding apply_estimate
  apply_estimate-IsNormal d p checked s {e} {o} h m n same_object same_estimate =
      let s' = leave_all code_le t s in
      let estimates' = add_all (sibling_estimates t p d) s'.estimates in
      ground (
        arith,
        same_object,
        same_estimate,
        IsNormal-at (leave_all-IsNormal code_le w s h) n,
        IsNormal-at (leave_all-IsNormal code_le w s h) m,
        has-delete p.construction_id s'.constructions o.construction_id,
        has-add_all (sibling_objects t p) s'.objects o.id,
        has-delete p.id s'.objects o.id,
        has-sibling_objects w n p,
        has-add_all (sibling_estimates t p d) s'.estimates e.id,
        has-sibling_estimates w n p d,
        has-add d.id estimates' e.id,
        has-delete d.id estimates' e.id,
        has-add d.id s'.estimates e.id,
        has-delete d.id s'.estimates e.id,
        object_id-eq w n,
        object_id-eq w m,
        ===_iff d.id e.id,
        ===_iff e.id d.id,
        ===_iff p.id o.id,
        ===_iff o.id p.id,
        ===_iff e.object_id p.id,
        ===_iff p.construction_id o.construction_id,
        ===_iff o.construction_id p.construction_id,
      )

  apply_selection-at :
      (kind : Kind) (id : Text) (checked : Bool) (s : Selection) {e : Estimate} {o : Object}
      → IsNormal t s
      → Node t e o
      → NormalAt (apply_selection code_le t kind id checked s) e o
  unfolding apply_selection
  apply_selection-at all id checked s {e} {o} h n =
      ground (arith, has-nil o.construction_id, has-nil o.id, has-nil e.id)
  apply_selection-at construction id checked s h n = apply_construction-IsNormal id checked s h n
  apply_selection-at object id checked s {e} {o} h n = elim (Option-cases (find_object t id)) [
    | inl missing ↦ ground (arith, missing, IsNormal-at h n)
    | inr (p, found) ↦
        let named : p.id ≡ id = key-find_by object_key id t.objects found in
        ground
          (arith, found, named, apply_object-IsNormal p checked s h n (same_object w id n found))
  ]
  apply_selection-at estimate id checked s {e} {o} h n = elim (Option-cases (find_estimate t id)) [
    | inl missing ↦ ground (arith, missing, IsNormal-at h n)
    | inr (d, found) ↦
        let named : d.id ≡ id = key-find_by estimate_key id t.estimates found in
        let (p, holder) = object_of w id d found in
        let m : Node t d p = record {
          estimate_found = ap (find_estimate t) named ∙ found;
          object_found = holder;
        } in
        ground (
          arith,
          found,
          named,
          holder,
          apply_estimate-IsNormal d p checked s h m n (same_object w d.object_id n holder)
              (same_estimate w id n found),
        )
  ]
  apply_selection-at other id checked s h n = IsNormal-at h n

  -- Every change of a check box keeps the selection of a well-formed tree normal: below a selected
  -- construction or object nothing is in a set of its own.
  pub apply_selection-IsNormal :
      (kind : Kind) (id : Text) (checked : Bool) (s : Selection)
      → IsNormal t s
      → IsNormal t (apply_selection code_le t kind id checked s)
  apply_selection-IsNormal kind id checked s h =
      IsNormal-of_at λ e o n. apply_selection-at kind id checked s h n
