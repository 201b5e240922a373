-- ===== src/UserPositionImport/Apply.antt =====
-- The refinement of the import selection: `applyUserPositionImportSelection` (web/app.js) changes
-- the set of selected estimates as its caller means it to, and keeps the selection normal.
use new_a.Common.{
  Bool, true, false, ◌||◌, map, ◌≡◌, refl, arith, if◌then◌else◌, Text, ◌===◌, ===_iff, has, add,
  delete, add_all, has-nil, has-add, has-delete, has-add_all, has-delete_all,
}
use new_a.ProjectTree.{
  Object, Estimate, Tree, Kind, all, construction, object, estimate, other, construction_key,
  object_ids_of_construction,
}
use new_a.ProjectTree.Scope.{IsWellFormed, Node, object_id-eq}
use new_a.UserPositionImport.{
  Selection, is_estimate_selected, estimate_ids_of_object, sibling_objects, sibling_estimates,
  import_constructions, leave_all, apply_construction, apply_object, apply_estimate,
}
use new_a.UserPositionImport.Selected.{
  has-estimate_ids_of_object, has-object_ids_of_construction, has-sibling_objects,
  has-sibling_estimates, has-prune_objects, has-import_constructions, prune_objects-objects,
  prune_objects_same,
}

-- Nothing is selected twice: below a selected construction no object and no estimate is in its own
-- set, and below a selected object no estimate.
pub record IsNormal (t : Tree) (s : Selection) : Type 0 where
  pub objects_normal :
      (e : Estimate) (o : Object)
      → Node t e o
      → has s.constructions o.construction_id ≡ true
      → has s.objects o.id ≡ false
  pub estimates_normal :
      (e : Estimate) (o : Object)
      → Node t e o
      → (has s.constructions o.construction_id || has s.objects o.id) ≡ true
      → has s.estimates e.id ≡ false

-- The estimates that a check box of the dialog stands for.
abbrev pub targets : Kind → Text → Estimate → Object → Bool
targets all id e o = true
targets construction id e o = o.construction_id === id
targets object id e o = o.id === id
targets estimate id e o = e.id === id
targets other id e o = false

-- What `is_estimate_selected` computes, with no function in the way.
abbrev pub chosen : Selection → Estimate → Object → Bool
chosen s e o =
    s.whole || has s.constructions o.construction_id || has s.objects o.id || has s.estimates e.id

pub is_estimate_selected_lem :
    (s : Selection) (e : Estimate) (o : Object) → is_estimate_selected s e o ≡ chosen s e o
unfolding is_estimate_selected
is_estimate_selected_lem s e o = refl

module _ (code_le : Text → Text → Bool) {t : Tree} (w : IsWellFormed t) where
  pub chosen-leave_all :
      (s : Selection) {e : Estimate} {o : Object}
      → Node t e o
      → chosen (leave_all code_le t s) e o ≡ chosen s e o
  unfolding leave_all
  chosen-leave_all s {e} {o} n = ground (
    arith,
    has-import_constructions w n code_le,
    has-nil o.id,
    has-nil e.id,
    has-add_all (map construction_key (import_constructions code_le t)) s.constructions
        o.construction_id,
  )

  pub leave_all_whole : (s : Selection) → (leave_all code_le t s).whole ≡ false
  unfolding leave_all
  leave_all_whole s = ground arith

  pub leave_all-IsNormal : (s : Selection) → IsNormal t s → IsNormal t (leave_all code_le t s)
  unfolding leave_all
  leave_all-IsNormal s h = record {
    objects_normal = λ e o n p. ground (arith, has-nil o.id, h.objects_normal e o n);
    estimates_normal = λ e o n p. ground (arith, has-nil e.id, h.estimates_normal e o n);
  }

  pub chosen-apply_construction :
      (id : Text) (checked : Bool) (s : Selection) {e : Estimate} {o : Object}
      → Node t e o
      → chosen (apply_construction code_le t id checked s) e o
        ≡ (if o.construction_id === id then checked else chosen s e o)
  unfolding apply_construction
  chosen-apply_construction id checked s {e} {o} n =
      let s' = leave_all code_le t s in
      let cs = if checked then add id s'.constructions else delete id s'.constructions in
      let m = record s' { constructions = cs } in
      let ids = object_ids_of_construction t id in
      ground (
        arith,
        leave_all_whole s,
        chosen-leave_all s n,
        has-add id s'.constructions o.construction_id,
        has-delete id s'.constructions o.construction_id,
        prune_objects_same t ids m,
        prune_objects-objects t ids m o.id,
        has-prune_objects w n ids m,
        has-object_ids_of_construction w n id,
        object_id-eq w n,
        ===_iff id o.construction_id,
        ===_iff o.construction_id id,
      )

  pub chosen-apply_object :
      (p : Object) (checked : Bool) (s : Selection) {e : Estimate} {o : Object}
      → IsNormal t s
      → Node t e o
      → (o.id ≡ p.id → o ≡ p)
      → chosen (apply_object code_le t p.id p checked s) e o
        ≡ (if o.id === p.id then checked else chosen s e o)
  unfolding apply_object
  chosen-apply_object p checked s {e} {o} h n same =
      let s' = leave_all code_le t s in
      let objects' = add_all (sibling_objects t p) s'.objects in
      ground (
        arith,
        leave_all_whole s,
        chosen-leave_all s n,
        same,
        (leave_all-IsNormal s h).objects_normal e o n,
        (leave_all-IsNormal s h).estimates_normal e o n,
        has-delete p.construction_id s'.constructions o.construction_id,
        has-add_all (sibling_objects t p) s'.objects o.id,
        has-sibling_objects w n p,
        has-add p.id objects' o.id,
        has-delete p.id objects' o.id,
        has-add p.id s'.objects o.id,
        has-delete p.id s'.objects o.id,
        has-delete_all (estimate_ids_of_object t p.id) s'.estimates e.id,
        has-estimate_ids_of_object w n p.id,
        object_id-eq w n,
        ===_iff p.id o.id,
        ===_iff o.id p.id,
        ===_iff e.object_id p.id,
        ===_iff p.construction_id o.construction_id,
        ===_iff o.construction_id p.construction_id,
      )

  pub chosen-apply_estimate :
      (d : Estimate) (p : Object) (checked : Bool) (s : Selection) {e : Estimate} {o : Object}
      → IsNormal t s
      → Node t d p
      → Node t e o
      → (o.id ≡ p.id → o ≡ p)
      → (e.id ≡ d.id → e ≡ d)
      → chosen (apply_estimate code_le t d.id d p checked s) e o
        ≡ (if e.id === d.id then checked else chosen s e o)
  unfolding apply_estimate
  chosen-apply_estimate d p checked s {e} {o} h m n same_object same_estimate =
      let s' = leave_all code_le t s in
      let estimates' = add_all (sibling_estimates t p d) s'.estimates in
      ground (
        arith,
        leave_all_whole s,
        chosen-leave_all s n,
        same_object,
        same_estimate,
        (leave_all-IsNormal s h).objects_normal e o n,
        (leave_all-IsNormal s h).estimates_normal e o n,
        has-delete p.construction_id s'.constructions o.construction_id,
        has-add_all (sibling_objects t p) s'.objects o.id,
        has-delete p.id s'.objects o.id,
        has-sibling_objects w n p,
        has-add_all (sibling_estimates t p d) s'.estimates e.id,
        has-sibling_estimates w n p d,
        has-add d.id estimates' e.id,
        has-delete d.id estimates' e.id,
        has-add d.id s'.estimates e.id,
        has-delete d.id s'.estimates e.id,
        object_id-eq w n,
        object_id-eq w m,
        ===_iff d.id e.id,
        ===_iff e.id d.id,
        ===_iff p.id o.id,
        ===_iff o.id p.id,
        ===_iff e.object_id p.id,
        ===_iff p.construction_id o.construction_id,
        ===_iff o.construction_id p.construction_id,
      )
