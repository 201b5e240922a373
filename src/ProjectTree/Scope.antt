-- ===== src/ProjectTree/Scope.antt =====
-- Well-formed trees, and the estimates that `collectEstimateIdsForScope` (web/app.js) finds below a
-- construction or an object of one.
use new_a.Common.{
  Bool, true, ◌&&◌, ◌||◌, List, [], ◌∷◌, map, some, ◌≡◌, refl, ap, ◌∙◌, arith, filter, Text, ◌===◌,
  is_nonempty, has,
}
use new_a.ProjectTree.{
  Construction, Object, Estimate, Tree, construction, object, construction_key, object_key,
  estimate_key, find_construction, find_object, find_estimate, object_ids_of_construction,
  collect_estimate_ids_for_scope, insert_by_code, sort_by_code,
}
use new_a.ProjectTree.Keys.{HasUniqueKeys, has-filter, key-find_by, find_by_of_has}

-- Identifiers are distinct, references lead to a node of the tree, and no estimate has an empty
-- identifier.
pub record IsWellFormed (t : Tree) : Type 0 where
  pub unique_objects : HasUniqueKeys object_key t.objects
  pub unique_estimates : HasUniqueKeys estimate_key t.estimates
  pub object_known :
      (id : Text) (e : Estimate)
      → find_estimate t id ≡ some e
      → has (map object_key t.objects) e.object_id ≡ true
  pub construction_known :
      (id : Text) (o : Object)
      → find_object t id ≡ some o
      → has (map construction_key t.constructions) o.construction_id ≡ true
  pub estimate_named :
      (id : Text) (e : Estimate) → find_estimate t id ≡ some e → is_nonempty id ≡ true

pub has-filter_nonempty :
    (xs : List Text) (y : Text) → has (filter is_nonempty xs) y ≡ (is_nonempty y && has xs y)
unfolding has ◌===◌
has-filter_nonempty [] [] = refl
has-filter_nonempty [] (c ∷ y) = refl
has-filter_nonempty ([] ∷ xs) [] = has-filter_nonempty xs []
has-filter_nonempty ([] ∷ xs) (c ∷ y) = has-filter_nonempty xs (c ∷ y)
has-filter_nonempty ((x ∷ s) ∷ xs) [] = has-filter_nonempty xs []
has-filter_nonempty ((x ∷ s) ∷ xs) (c ∷ y) = ground (arith, has-filter_nonempty xs (c ∷ y))

pub object_of :
    {t : Tree} (w : IsWellFormed t) (id : Text) (e : Estimate)
    → find_estimate t id ≡ some e
    → (o : Object) × (find_object t e.object_id ≡ some o)
object_of {t} w id e h = find_by_of_has object_key t.objects e.object_id (w.object_known id e h)

pub construction_of :
    {t : Tree} (w : IsWellFormed t) (id : Text) (o : Object)
    → find_object t id ≡ some o
    → (c : Construction) × (find_construction t o.construction_id ≡ some c)
construction_of {t} w id o h =
    find_by_of_has construction_key t.constructions o.construction_id (w.construction_known id o h)

-- An estimate of a well-formed tree together with the object that holds it.
pub record Node (t : Tree) (e : Estimate) (o : Object) : Type 0 where
  pub estimate_found : find_estimate t e.id ≡ some e
  pub object_found : find_object t e.object_id ≡ some o

module _ {t : Tree} (w : IsWellFormed t) {e : Estimate} {o : Object} (n : Node t e o) where
  pub object_id-eq : o.id ≡ e.object_id
  object_id-eq = key-find_by object_key e.object_id t.objects n.object_found

  pub has-estimates :
      (p : Estimate → Bool) → has (map estimate_key (filter p t.estimates)) e.id ≡ p e
  has-estimates p = has-filter estimate_key p t.estimates e.id w.unique_estimates n.estimate_found

  pub has-objects :
      (p : Object → Bool) → has (map object_key (filter p t.objects)) e.object_id ≡ p o
  has-objects p = has-filter object_key p t.objects e.object_id w.unique_objects n.object_found

  pub has-collect_object :
      (id : Text) → has (collect_estimate_ids_for_scope t object id) e.id ≡ e.object_id === id
  unfolding collect_estimate_ids_for_scope
  has-collect_object id =
      has-filter_nonempty (map estimate_key (filter (λ x. x.object_id === id) t.estimates)) e.id
      ∙ ground
          (arith, w.estimate_named e.id e n.estimate_found, has-estimates (λ x. x.object_id === id))

  pub has-collect_construction :
      (id : Text)
      → has (collect_estimate_ids_for_scope t construction id) e.id ≡ o.construction_id === id
  unfolding collect_estimate_ids_for_scope
  has-collect_construction id =
      let ids = object_ids_of_construction t id in
      has-filter_nonempty (map estimate_key (filter (λ x. has ids x.object_id) t.estimates)) e.id
      ∙ ground (
        arith,
        w.estimate_named e.id e n.estimate_found,
        has-estimates (λ x. has ids x.object_id),
        has-objects (λ x. x.construction_id === id),
      )

module _ {t : Tree} (w : IsWellFormed t) where
  -- An object of the tree is what `find` returns for its identifier.
  pub same_object :
      {e : Estimate} {o p : Object} (id : Text)
      → Node t e o
      → find_object t id ≡ some p
      → o.id ≡ p.id
      → o ≡ p
  same_object {e} {o} {p} id n f q =
      ground (arith, n.object_found, object_id-eq w n, key-find_by object_key id t.objects f)

  pub same_estimate :
      {e : Estimate} {o : Object} {d : Estimate} (id : Text)
      → Node t e o
      → find_estimate t id ≡ some d
      → e.id ≡ d.id
      → e ≡ d
  same_estimate {e} {o} {d} id n f q =
      ground (arith, n.estimate_found, key-find_by estimate_key id t.estimates f)

module _ (code_le : Text → Text → Bool) where
  has-insert_by_code :
      (c : Construction) (cs : List Construction) (y : Text)
      → has (map construction_key (insert_by_code code_le c cs)) y
        ≡ (c.id === y || has (map construction_key cs) y)
  unfolding has insert_by_code
  has-insert_by_code c [] y = refl
  has-insert_by_code c (d ∷ ds) y = ground (arith, has-insert_by_code c ds y)

  pub has-sort_by_code :
      (cs : List Construction) (y : Text)
      → has (map construction_key (sort_by_code code_le cs)) y ≡ has (map construction_key cs) y
  unfolding has sort_by_code
  has-sort_by_code [] y = refl
  has-sort_by_code (c ∷ cs) y =
      has-insert_by_code c (sort_by_code code_le cs) y
      ∙ ap (λ b. c.id === y || b) (has-sort_by_code cs y)
