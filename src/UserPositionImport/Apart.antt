-- ===== src/UserPositionImport/Apart.antt =====
-- The three sets of the import selection stay apart (`applyUserPositionImportSelection` of web/app.js).
use new_a.Common.{
  Bool, false, not, ◌&&◌, ◌||◌, ◌≡◌, ap, ◌∙◌, arith, if◌then◌else◌, Text, ◌===◌, ===_iff, has, add,
  delete, map, filter, some, add_all, has-nil, has-add, has-delete, has-add_all, Option-cases, inl,
  inr,
}
use new_a.ProjectTree.{
  Object, Estimate, Tree, Kind, all, construction, object, estimate, other, find_object,
  find_estimate, object_ids_of_construction, object_key,
}
use new_a.ProjectTree.Keys.{key-find_by, has-filter}
use new_a.ProjectTree.Scope.{IsWellFormed, object_of}
use new_a.UserPositionImport.{
  Selection, sibling_objects, leave_all, apply_construction, apply_object, apply_estimate,
  apply_selection,
}
use new_a.UserPositionImport.Selected.{prune_objects-objects, prune_objects_same}
use new_a.UserPositionImport.Apply.{IsNormal, leave_all_whole}
use new_a.UserPositionImport.Normal.{apply_selection-IsNormal}

-- Nothing is recorded twice: the selection is normal, no object of the tree is in its own set below a
-- selected construction, whether it holds an estimate or not, and where the whole tree is selected,
-- all three sets are empty.
pub record IsApart (t : Tree) (s : Selection) : Type 0 where
  pub normal : IsNormal t s
  pub objects_apart :
      (o : Object)
      → find_object t o.id ≡ some o
      → (has s.constructions o.construction_id && has s.objects o.id) ≡ false
  pub whole_alone :
      (x : Text)
      → (s.whole && (has s.constructions x || has s.objects x || has s.estimates x)) ≡ false

module _ (code_le : Text → Text → Bool) {t : Tree} (w : IsWellFormed t) where
  in_objects :
      (p : Object → Bool) (o : Object)
      → find_object t o.id ≡ some o
      → has (map object_key (filter p t.objects)) o.id ≡ p o
  in_objects p o found = has-filter object_key p t.objects o.id w.unique_objects found

  same_found :
      (o p : Object)
      → find_object t o.id ≡ some o
      → find_object t p.id ≡ some p
      → o.id ≡ p.id
      → o ≡ p
  same_found o p f g q = cc

  leave_all-apart :
      (s : Selection) (o : Object)
      → (has s.constructions o.construction_id && has s.objects o.id) ≡ false
      → (has (leave_all code_le t s).constructions o.construction_id
          && has (leave_all code_le t s).objects o.id)
        ≡ false
  unfolding leave_all
  leave_all-apart s o h = ground (arith, has-nil o.id, h)

  construction_apart :
      (id : Text) (checked : Bool) (s : Selection) (o : Object)
      → find_object t o.id ≡ some o
      → (has s.constructions o.construction_id && has s.objects o.id) ≡ false
      → (has (apply_construction code_le t id checked s).constructions o.construction_id
          && has (apply_construction code_le t id checked s).objects o.id)
        ≡ false
  unfolding apply_construction object_ids_of_construction
  construction_apart id checked s o found h =
      let s' = leave_all code_le t s in
      let cs = if checked then add id s'.constructions else delete id s'.constructions in
      let m = record s' { constructions = cs } in
      let ids = object_ids_of_construction t id in
      ground (
        arith,
        leave_all-apart s o h,
        has-add id s'.constructions o.construction_id,
        has-delete id s'.constructions o.construction_id,
        prune_objects_same t ids m,
        prune_objects-objects t ids m o.id,
        in_objects (λ x. x.construction_id === id) o found,
        ===_iff id o.construction_id,
        ===_iff o.construction_id id,
      )

  object_apart :
      (p : Object) (checked : Bool) (s : Selection) (o : Object)
      → find_object t o.id ≡ some o
      → find_object t p.id ≡ some p
      → (has s.constructions o.construction_id && has s.objects o.id) ≡ false
      → (has (apply_object code_le t p.id p checked s).constructions o.construction_id
          && has (apply_object code_le t p.id p checked s).objects o.id)
        ≡ false
  unfolding apply_object sibling_objects
  object_apart p checked s o found known h =
      let s' = leave_all code_le t s in
      let objects' = add_all (sibling_objects t p) s'.objects in
      ground (
        arith,
        leave_all-apart s o h,
        same_found o p found known,
        has-delete p.construction_id s'.constructions o.construction_id,
        has-add_all (sibling_objects t p) s'.objects o.id,
        in_objects (λ x. x.construction_id === p.construction_id && not (x.id === p.id)) o found,
        has-add p.id objects' o.id,
        has-delete p.id objects' o.id,
        has-add p.id s'.objects o.id,
        has-delete p.id s'.objects o.id,
        ===_iff p.id o.id,
        ===_iff o.id p.id,
        ===_iff p.construction_id o.construction_id,
        ===_iff o.construction_id p.construction_id,
      )

  estimate_apart :
      (id : Text) (d : Estimate) (p : Object) (checked : Bool) (s : Selection) (o : Object)
      → find_object t o.id ≡ some o
      → (has s.constructions o.construction_id && has s.objects o.id) ≡ false
      → (has (apply_estimate code_le t id d p checked s).constructions o.construction_id
          && has (apply_estimate code_le t id d p checked s).objects o.id)
        ≡ false
  unfolding apply_estimate sibling_objects
  estimate_apart id d p checked s o found h =
      let s' = leave_all code_le t s in
      ground (
        arith,
        leave_all-apart s o h,
        has-delete p.construction_id s'.constructions o.construction_id,
        has-add_all (sibling_objects t p) s'.objects o.id,
        has-delete p.id s'.objects o.id,
        in_objects (λ x. x.construction_id === p.construction_id && not (x.id === p.id)) o found,
        ===_iff p.construction_id o.construction_id,
        ===_iff o.construction_id p.construction_id,
      )

  construction_whole :
      (id : Text) (checked : Bool) (s : Selection)
      → (apply_construction code_le t id checked s).whole ≡ false
  unfolding apply_construction
  construction_whole id checked s =
      let s' = leave_all code_le t s in
      let cs = if checked then add id s'.constructions else delete id s'.constructions in
      (prune_objects_same t (object_ids_of_construction t id) (record s' { constructions = cs })).0
      ∙ leave_all_whole code_le w s

  object_whole :
      (id : Text) (p : Object) (checked : Bool) (s : Selection)
      → (apply_object code_le t id p checked s).whole ≡ false
  unfolding apply_object
  object_whole id p checked s = ground (arith, leave_all_whole code_le w s)

  estimate_whole :
      (id : Text) (d : Estimate) (p : Object) (checked : Bool) (s : Selection)
      → (apply_estimate code_le t id d p checked s).whole ≡ false
  unfolding apply_estimate
  estimate_whole id d p checked s = ground (arith, leave_all_whole code_le w s)

  apply_selection-apart :
      (kind : Kind) (id : Text) (checked : Bool) (s : Selection) (o : Object)
      → find_object t o.id ≡ some o
      → (has s.constructions o.construction_id && has s.objects o.id) ≡ false
      → (has (apply_selection code_le t kind id checked s).constructions o.construction_id
          && has (apply_selection code_le t kind id checked s).objects o.id)
        ≡ false
  unfolding apply_selection
  apply_selection-apart all id checked s o found h = ground (arith, has-nil o.id)
  apply_selection-apart construction id checked s o found h =
      construction_apart id checked s o found h
  apply_selection-apart object id checked s o found h = elim (Option-cases (find_object t id)) [
    | inl missing ↦ ground (arith, missing, h)
    | inr (p, known) ↦
        let named : p.id ≡ id = key-find_by object_key id t.objects known in
        ground (
          arith,
          known,
          named,
          object_apart p checked s o found (ap (find_object t) named ∙ known) h,
        )
  ]
  apply_selection-apart estimate id checked s o found h = elim (Option-cases (find_estimate t id)) [
    | inl missing ↦ ground (arith, missing, h)
    | inr (d, known) ↦
        let (p, holder) = object_of w id d known in
        ground (arith, known, holder, estimate_apart id d p checked s o found h)
  ]
  apply_selection-apart other id checked s o found h = h

  apply_selection-alone :
      (kind : Kind) (id : Text) (checked : Bool) (s : Selection) (x : Text)
      → (s.whole && (has s.constructions x || has s.objects x || has s.estimates x)) ≡ false
      → ((apply_selection code_le t kind id checked s).whole
          && (has (apply_selection code_le t kind id checked s).constructions x
              || has (apply_selection code_le t kind id checked s).objects x
              || has (apply_selection code_le t kind id checked s).estimates x))
        ≡ false
  unfolding apply_selection
  apply_selection-alone all id checked s x h = ground (arith, has-nil x)
  apply_selection-alone construction id checked s x h =
      ground (arith, construction_whole id checked s)
  apply_selection-alone object id checked s x h = elim (Option-cases (find_object t id)) [
    | inl missing ↦ ground (arith, missing, h)
    | inr (p, known) ↦ ground (arith, known, object_whole id p checked s)
  ]
  apply_selection-alone estimate id checked s x h = elim (Option-cases (find_estimate t id)) [
    | inl missing ↦ ground (arith, missing, h)
    | inr (d, known) ↦
        let (p, holder) = object_of w id d known in
        ground (arith, known, holder, estimate_whole id d p checked s)
  ]
  apply_selection-alone other id checked s x h = h

  -- Every change of a check box keeps the selection of a well-formed tree free of anything that is
  -- recorded twice: below a selected construction or object no object and no estimate of the tree is
  -- in a set of its own, and where the whole tree is selected, all sets are empty.
  pub apply_selection-IsApart :
      (kind : Kind) (id : Text) (checked : Bool) (s : Selection)
      → IsApart t s
      → IsApart t (apply_selection code_le t kind id checked s)
  apply_selection-IsApart kind id checked s h = record {
    normal = apply_selection-IsNormal code_le w kind id checked s h.normal;
    objects_apart =
        λ o found. apply_selection-apart kind id checked s o found (h.objects_apart o found);
    whole_alone = λ x. apply_selection-alone kind id checked s x (h.whole_alone x);
  }
